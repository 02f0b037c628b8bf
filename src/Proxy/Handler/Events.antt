-- ===== src/Proxy/Handler/Events.antt =====
-- The events that are made of one response.
use codesteward_audit_proxy.Base.{
  ℕ, ◌≡◌, refl, ap, Bool, true, ◌&&◌, List, [], ◌∷◌, map, is_nil, All,
}
use codesteward_audit_proxy.Base.Bytes.{Bytes, codes}
use codesteward_audit_proxy.Audit.Event.{AuditEvent}
use codesteward_audit_proxy.Parser.Types.{ToolCall, TokenUsage}
use codesteward_audit_proxy.Proxy.Handler.{
  RequestMeta, base_event, apply_usage, tool_event, build_tool_events,
}

-- What is common to the events of a response, whoever sent it: the body, the identity of the turn
-- and of its sender, and that it was captured.
pub record Describes (meta : RequestMeta) (ts : ℕ) (body : Bytes) (e : AuditEvent) : Type 0 where
  pub raw : e.raw ≡ body
  pub session_id : e.session_id ≡ meta.session_id
  pub turn_id : e.turn_id ≡ meta.turn_id
  pub at : e.ts ≡ ts
  pub agent : e.agent ≡ meta.agent
  pub project : e.project ≡ meta.project
  pub branch : e.branch ≡ meta.branch
  pub user : e.user ≡ meta.user
  pub team : e.team ≡ meta.team
  pub direction : e.direction ≡ codes "response"
  pub request_captured : e.request_captured ≡ true

-- The usage of an event.
abbrev pub usage_of : AuditEvent → TokenUsage
usage_of e = record {
  input_tokens = e.input_tokens;
  output_tokens = e.output_tokens;
  cache_read_tokens = e.cache_read_tokens;
  cache_write_tokens = e.cache_write_tokens;
}

abbrev pub call_of : AuditEvent → ToolCall
call_of e = record { name = e.tool_name; input = e.tool_input }

abbrev no_call : ToolCall
no_call = record { name = []; input = [] }

-- One event for each tool call, in their order; and one with no tool where there is no call.
abbrev pub calls_or_one : List ToolCall → List ToolCall
calls_or_one [] = no_call ∷ []
calls_or_one (t ∷ ts) = t ∷ ts

-- What is made of a response: one event for each of `calls`, all with the same content.
pub record Turn (meta : RequestMeta) (ts : ℕ) (body : Bytes) (calls : List ToolCall)
    (usage : TokenUsage) (model : Bytes) (thinking texts : List Bytes) (es : List AuditEvent)
    : Type 0 where
  pub calls_in_order : map call_of es ≡ calls_or_one calls
  pub described : All (Describes meta ts body) es
  pub same_content :
      All
        (λ e.
          (usage_of e ≡ usage)
          × (e.model ≡ model)
          × (e.thinking ≡ thinking)
          × (e.assistant_text ≡ texts))
        es

base_event-Describes :
    (meta : RequestMeta) (ts : ℕ) (body : Bytes) → Describes meta ts body (base_event meta ts body)
unfolding base_event
base_event-Describes meta ts body = record {
  raw = refl;
  session_id = refl;
  turn_id = refl;
  at = refl;
  agent = refl;
  project = refl;
  branch = refl;
  user = refl;
  team = refl;
  direction = refl;
  request_captured = refl;
}

module _ (P : AuditEvent → Type 0) (base : AuditEvent)
    (keep : (t : ToolCall) → P (tool_event base t)) where
  All-tool_event : (ts : List ToolCall) → All P (map (tool_event base) ts)
  All-tool_event [] = tt
  All-tool_event (t ∷ ts) = (keep t, All-tool_event ts)

  pub All-build : P base → (ts : List ToolCall) → All P (build_tool_events base ts)
  unfolding build_tool_events
  All-build h [] = (h, tt)
  All-build h (t ∷ ts) = All-tool_event (t ∷ ts)

map-call_of : (base : AuditEvent) (ts : List ToolCall) → map call_of (map (tool_event base) ts) ≡ ts
map-call_of base [] = refl
map-call_of base (t ∷ ts) = ap (◌∷◌ t) (map-call_of base ts)

calls-build :
    (base : AuditEvent) (ts : List ToolCall)
    → call_of base ≡ no_call
    → map call_of (build_tool_events base ts) ≡ calls_or_one ts
unfolding build_tool_events
calls-build base [] h = ap (λ c. c ∷ []) h
calls-build base (t ∷ ts) h = map-call_of base (t ∷ ts)

pub Describes-tool_event :
    {meta : RequestMeta} {ts : ℕ} {body : Bytes} {e : AuditEvent} (t : ToolCall)
    → Describes meta ts body e
    → Describes meta ts body (tool_event e t)
Describes-tool_event t d = record {
  raw = d.raw;
  session_id = d.session_id;
  turn_id = d.turn_id;
  at = d.at;
  agent = d.agent;
  project = d.project;
  branch = d.branch;
  user = d.user;
  team = d.team;
  direction = d.direction;
  request_captured = d.request_captured;
}

-- The events built over a base that describes the response and has no tool.
pub build-Turn :
    {meta : RequestMeta} {ts : ℕ} {body : Bytes} (base : AuditEvent) (calls : List ToolCall)
    → Describes meta ts body base
    → call_of base ≡ no_call
    → Turn meta ts body calls
        (usage_of base)
        base.model
        base.thinking
        base.assistant_text
        (build_tool_events base calls)
build-Turn base calls d none_yet = record {
  calls_in_order = calls-build base calls none_yet;
  described = All-build (Describes _ _ _) base (λ t. Describes-tool_event t d) d calls;
  same_content =
      All-build
        (λ e.
          (usage_of e ≡ usage_of base)
          × (e.model ≡ base.model)
          × (e.thinking ≡ base.thinking)
          × (e.assistant_text ≡ base.assistant_text))
        base (λ t. (refl, refl, refl, refl)) (refl, refl, refl, refl) calls;
}

-- A change of the content fields keeps what describes the response.
pub with_content-Describes :
    {meta : RequestMeta} {ts : ℕ} {body : Bytes} (thinking texts : List Bytes) (model group : Bytes)
    (u : TokenUsage)
    → Describes meta ts body (
        apply_usage u (
          let b = base_event meta ts body in
          record b {
            thinking = thinking;
            assistant_text = texts;
            model = model;
            resource_group = group;
          }))
unfolding base_event apply_usage
with_content-Describes thinking texts model group u = record {
  raw = refl;
  session_id = refl;
  turn_id = refl;
  at = refl;
  agent = refl;
  project = refl;
  branch = refl;
  user = refl;
  team = refl;
  direction = refl;
  request_captured = refl;
}

-- Nothing in a result that an event could hold.
abbrev pub is_blank_result : Bytes → List Bytes → List Bytes → List ToolCall → Bool
is_blank_result model thinking texts calls =
    is_nil model && is_nil thinking && is_nil texts && is_nil calls

abbrev pub is_blank_plain : Bytes → List Bytes → List ToolCall → Bool
is_blank_plain model texts calls = is_nil model && is_nil texts && is_nil calls
