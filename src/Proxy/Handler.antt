-- ===== src/Proxy/Handler.antt =====
-- internal/proxy/handler.go: the director, and the events made of a response. The audit transport is
-- in Handler/Transport. The UUIDs and the clock are arguments.
pub mod Counters
pub mod Transport
pub mod Events
pub mod Extraction
use codesteward_audit_proxy.Base.{
  ℕ, ◌-◌, Bool, true, ◌&&◌, ◌||◌, Option, none, some, List, [], ◌∷◌, map, if◌then◌else◌, is_nil,
}
use codesteward_audit_proxy.Base.Bytes.{Bytes, codes, eq_bytes, contains, to_lower}
use codesteward_audit_proxy.Base.Int.{ℤ, pos}
use codesteward_audit_proxy.Audit.Event.{AuditEvent, zero_audit_event}
use codesteward_audit_proxy.Parser.Types.{ToolCall, TokenUsage, ParseError}
use codesteward_audit_proxy.Parser.Anthropic.{AnthropicResult}
use codesteward_audit_proxy.Parser.Anthropic.Stream.{parse_anthropic}
use codesteward_audit_proxy.Parser.OpenAi.{OpenAiResult}
use codesteward_audit_proxy.Parser.OpenAi.Stream.{parse_open_ai}
use codesteward_audit_proxy.Parser.SapAiCore.{SapAiCoreResult, parse_sap_ai_core}
use codesteward_audit_proxy.Proxy.Http.{header_get, Header, Request}
use codesteward_audit_proxy.Proxy.Router.{Router, Upstream, detect_upstream, rewrite_request}

-- The metadata of a request, less the handler's own batchers.
pub record RequestMeta : Type 0 where
  pub session_id : Bytes
  pub turn_id : Bytes
  pub agent : Bytes
  pub upstream_name : Bytes
  pub project : Bytes
  pub branch : Bytes
  pub user : Bytes
  pub team : Bytes
  pub method : Bytes
  pub start_time : ℕ
  pub req_path : Bytes
  pub resource_group : Bytes

-- The handler's settings; `unprocessed` is false where that batcher is nil.
pub record Handler : Type 0 where
  pub project : Bytes
  pub branch : Bytes
  pub scrub : Bytes → Bytes
  pub capture_requests : Bool
  pub router : Router
  pub unprocessed : Bool

abbrev pub or_text : Bytes → Bytes → Bytes
or_text [] fallback = fallback
or_text (c ∷ s) fallback = c ∷ s

-- detectAgent, on the lower-case User-Agent
unfoldable pub agent_of : Bytes → Bytes
unfolding contains
agent_of ua =
    if contains ua (codes "claude-code") || contains ua (codes "claude-cli")
    then codes "claude-code"
    else if contains ua (codes "openai-codex")
    then codes "codex"
    else if contains ua (codes "gemini-cli")
    then codes "gemini-cli"
    else if contains ua (codes "cline")
    then codes "cline"
    else codes "unknown"

unfoldable pub detect_agent : Header → Bytes
unfolding agent_of to_lower header_get
detect_agent header = agent_of (to_lower (header_get header "User-Agent"))

-- The metadata that the director derives from the header, for a request rewritten to `req`.
unfoldable pub request_meta : Handler → Upstream → Bytes → Bytes → ℕ → Request → RequestMeta
unfolding header_get detect_agent
request_meta h upstream session_uuid turn_uuid now req = record {
  session_id =
      or_text (header_get req.header "X-Audit-Session-ID")
        (or_text (header_get req.header "X-Session-ID") session_uuid);
  turn_id = turn_uuid;
  agent = or_text (header_get req.header "X-Audit-Agent") (detect_agent req.header);
  upstream_name = upstream.name;
  project = or_text (header_get req.header "X-Audit-Project") h.project;
  branch = or_text (header_get req.header "X-Audit-Branch") h.branch;
  user = header_get req.header "X-Audit-User";
  team = header_get req.header "X-Audit-Team";
  method = req.method;
  start_time = now;
  req_path = req.url.path;
  resource_group = header_get req.header "AI-Resource-Group";
}

-- The director: the rewritten request, and the metadata for its context.
unfoldable pub director : Handler → Bytes → Bytes → ℕ → Request → Request × RequestMeta
unfolding detect_upstream rewrite_request request_meta
director h session_uuid turn_uuid now req =
    let upstream = detect_upstream h.router req in
    let req' = rewrite_request req upstream in
    (req', request_meta h upstream session_uuid turn_uuid now req')

-- The event that all events of a response share.
unfoldable pub base_event : RequestMeta → ℕ → Bytes → AuditEvent
base_event meta ts body = record zero_audit_event {
  session_id = meta.session_id;
  turn_id = meta.turn_id;
  ts = ts;
  agent = meta.agent;
  project = meta.project;
  branch = meta.branch;
  user = meta.user;
  team = meta.team;
  direction = codes "response";
  raw = body;
  request_captured = true;
}

unfoldable pub apply_usage : TokenUsage → AuditEvent → AuditEvent
apply_usage u e = record e {
  input_tokens = u.input_tokens;
  output_tokens = u.output_tokens;
  cache_read_tokens = u.cache_read_tokens;
  cache_write_tokens = u.cache_write_tokens;
}

abbrev pub tool_event : AuditEvent → ToolCall → AuditEvent
tool_event base tc = record base { tool_name = tc.name; tool_input = tc.input }

-- buildToolEvents
unfoldable pub build_tool_events : AuditEvent → List ToolCall → List AuditEvent
build_tool_events base [] = base ∷ []
build_tool_events base (tc ∷ tcs) = map (tool_event base) (tc ∷ tcs)

-- A nil slice is `none`.
abbrev pub Extracted : Type 0
Extracted = Option (List AuditEvent) × Option ParseError

unfoldable pub anthropic_events : AuditEvent → AnthropicResult × Option ParseError → Extracted
unfolding apply_usage build_tool_events
anthropic_events base (r, some e) = (none, some e)
anthropic_events base (r, none) =
    if is_nil r.model && is_nil r.thinking && is_nil r.assistant_text && is_nil r.tool_calls
    then (none, none)
    else (
      some (
          build_tool_events
            (apply_usage r.usage (record base {
              thinking = r.thinking;
              assistant_text = r.assistant_text;
              model = r.model;
            }))
            r.tool_calls),
      none,
    )

unfoldable pub open_ai_events : AuditEvent → OpenAiResult × Option ParseError → Extracted
unfolding apply_usage build_tool_events
open_ai_events base (r, some e) = (none, some e)
open_ai_events base (r, none) =
    if is_nil r.model && is_nil r.assistant_text && is_nil r.tool_calls then (none, none) else (
      some (
          build_tool_events
            (apply_usage r.usage
              (record base { assistant_text = r.assistant_text; model = r.model }))
            r.tool_calls),
      none,
    )

unfoldable pub sap_ai_core_events : AuditEvent → SapAiCoreResult × Option ParseError → Extracted
unfolding apply_usage build_tool_events
sap_ai_core_events base (r, some e) = (none, some e)
sap_ai_core_events base (r, none) =
    if is_nil r.model && is_nil r.assistant_text && is_nil r.tool_calls then (none, none) else (
      some (
          build_tool_events
            (apply_usage r.usage (record base {
              assistant_text = r.assistant_text;
              model = r.model;
              resource_group = r.resource_group;
            }))
            r.tool_calls),
      none,
    )

-- The switch on the upstream's name.
unfoldable pub extract_events : RequestMeta → ℕ → Bytes → Bool → Extracted
unfolding eq_bytes
extract_events meta ts body is_stream =
    let base = base_event meta ts body in
    if eq_bytes meta.upstream_name (codes "anthropic")
    then anthropic_events base (parse_anthropic body is_stream)
    else if eq_bytes meta.upstream_name (codes "openai")
    then open_ai_events base (parse_open_ai body is_stream)
    else if eq_bytes meta.upstream_name (codes "sap-ai-core")
    then sap_ai_core_events base
        (parse_sap_ai_core body is_stream meta.req_path meta.resource_group)
    else (none, none)

-- tokenCount
unfoldable pub token_count : List AuditEvent → (AuditEvent → ℤ) → ℤ
token_count [] field = pos 0
token_count (e ∷ es) field = field e
