-- ===== src/Proxy/Handler/Transport.antt =====
-- internal/proxy/handler.go: RoundTrip of the audit transport. Third-party calls are parameters: the
-- propagator that writes the trace context into the header, and the texts of errors. Spans and logs
-- are left out; the metrics are kept.
pub mod Partial
pub mod Headers
pub mod Records
pub mod Serving
use codesteward_audit_proxy.Base.{
  ℕ, String, Bool, Option, none, some, List, [], ◌∷◌, map, if◌then◌else◌,
}
use codesteward_audit_proxy.Base.Bytes.{Bytes, codes}
use codesteward_audit_proxy.Base.Int.{ℤ, positive}
use codesteward_audit_proxy.Audit.Event.{AuditEvent, zero_audit_event, UnprocessedEvent}
use codesteward_audit_proxy.Parser.Types.{ParseError}
use codesteward_audit_proxy.Parser.Request.{parse_request}
use codesteward_audit_proxy.Proxy.Http.{
  header_get, header_del, Header, Request, RequestBody, no_body, readable, unreadable, Response,
}
use codesteward_audit_proxy.Proxy.Tap.{tap_body}
use codesteward_audit_proxy.Proxy.Handler.{Handler, RequestMeta, extract_events}

abbrev pub internal_headers : List String
internal_headers =
    "X-Session-ID" ∷ "X-Audit-Agent" ∷ "X-Audit-User" ∷ "X-Audit-Project" ∷ "X-Audit-Branch"
    ∷ "X-Audit-Session-ID" ∷ "X-Audit-Team" ∷ "Accept-Encoding" ∷ []

unfoldable pub strip_headers : List String → Header → Header
unfolding header_del
strip_headers [] h = h
strip_headers (key ∷ keys) h = strip_headers keys (header_del h key)

-- The bytes for the audit, and the body that the upstream gets.
unfoldable pub body_bytes : RequestBody → Bytes
body_bytes (readable b) = b
body_bytes _ = []

unfoldable pub restored_body : RequestBody → RequestBody
restored_body no_body = no_body
restored_body (readable b) = readable b
restored_body unreadable = readable []

-- What reaches a batcher.
pub data Emission : Type 0 where
  to_audit : AuditEvent → Emission
  to_unprocessed : UnprocessedEvent → Emission

unfoldable pub request_event : Handler → RequestMeta → Bytes → AuditEvent
unfolding parse_request
request_event h meta body =
    let r = parse_request body h.scrub h.capture_requests in
    record zero_audit_event {
      session_id = meta.session_id;
      turn_id = meta.turn_id;
      ts = meta.start_time;
      agent = meta.agent;
      project = meta.project;
      branch = meta.branch;
      user = meta.user;
      team = meta.team;
      direction = codes "request";
      raw = r.raw;
      user_messages = r.user_messages;
      request_captured = r.request_captured;
    }

-- The counters that a response adds to, with their dimensions; an absent count adds nothing.
pub record Metrics : Type 0 where
  pub system : Bytes
  pub agent : Bytes
  pub model : Bytes
  pub project : Bytes
  pub input_tokens : Option ℤ
  pub output_tokens : Option ℤ

abbrev if_positive : ℤ → Option ℤ
if_positive n = if positive n then some n else none

unfoldable pub metrics_of : RequestMeta → List AuditEvent → Option Metrics
metrics_of meta [] = none
metrics_of meta (e ∷ es) = some (record {
  system = meta.upstream_name;
  agent = meta.agent;
  model = e.model;
  project = meta.project;
  input_tokens = if_positive e.input_tokens;
  output_tokens = if_positive e.output_tokens;
})

-- `len(events) > 0`, where a nil slice is empty.
abbrev pub events_or_none : Option (List AuditEvent) → List AuditEvent
events_or_none none = []
events_or_none (some es) = es

-- The request as it is forwarded, and the emission on its way there.
unfoldable pub outgoing : (Header → Header) → Request → Request
unfolding strip_headers restored_body
outgoing inject req = record req {
  header = inject (strip_headers internal_headers req.header);
  body = restored_body req.body;
}

pub record Exchange : Type 0 where
  pub sent : Request
  pub request_emissions : List Emission
  pub response : Option Response
  pub response_emissions : List Emission
  pub metrics : Option Metrics

abbrev pub request_emissions_of : Handler → Option RequestMeta → Bytes → List Emission
request_emissions_of h none body = []
request_emissions_of h (some meta) body = to_audit (request_event h meta body) ∷ []

module _ (error_text : ParseError → Bytes) where
  abbrev pub error_message : Option ParseError → Bytes
  error_message none = []
  error_message (some e) = error_text e

  unfoldable pub unprocessed_event :
      RequestMeta → ℕ → ℤ → Bytes → Bytes → Option ParseError → UnprocessedEvent
  unprocessed_event meta ts status content_type body e = record {
    session_id = meta.session_id;
    turn_id = meta.turn_id;
    ts = ts;
    agent = meta.agent;
    project = meta.project;
    branch = meta.branch;
    user = meta.user;
    team = meta.team;
    direction = codes "response";
    method = meta.method;
    path = meta.req_path;
    status_code = status;
    content_type = content_type;
    raw = body;
    error = error_message e;
  }

  -- Where the events of a response go: `has_sink` is whether the unprocessed batcher is there.
  unfoldable pub emissions :
      Bool
      → RequestMeta
      → ℕ
      → ℤ
      → Bytes
      → Bytes
      → Option (List AuditEvent) × Option ParseError
      → List Emission
  unfolding unprocessed_event
  emissions has_sink meta ts status content_type body (some es, e) = map to_audit es
  emissions has_sink meta ts status content_type body (none, e) =
      if has_sink
      then to_unprocessed (unprocessed_event meta ts status content_type body e) ∷ []
      else []

  -- The callback that TapBody runs.
  unfoldable pub on_complete :
      Bool → RequestMeta → ℕ → Response → Bytes → Bool → List Emission × Option Metrics
  unfolding emissions metrics_of extract_events header_get
  on_complete has_sink meta ts resp body is_stream =
      let extracted = extract_events meta ts body is_stream in
      (
        emissions has_sink meta ts resp.status_code (header_get resp.header "Content-Type") body
            extracted,
        metrics_of meta (events_or_none extracted.0),
      )

  -- The answer of the inner RoundTrip (`none` for an error), with the whole body read by the caller.
  unfoldable pub finish_exchange :
      Handler → Option RequestMeta → ℕ → Request → List Emission → Option Response → Exchange
  unfolding on_complete tap_body
  finish_exchange h meta ts req requests none = record {
    sent = req;
    request_emissions = requests;
    response = none;
    response_emissions = [];
    metrics = none;
  }
  finish_exchange h none ts req requests (some resp) = record {
    sent = req;
    request_emissions = requests;
    response = some resp;
    response_emissions = [];
    metrics = none;
  }
  finish_exchange h (some meta) ts req requests (some resp) =
      let done =
        on_complete h.unprocessed meta ts resp resp.body (tap_body resp.header []).is_stream in
      record {
        sent = req;
        request_emissions = requests;
        response = some resp;
        response_emissions = done.0;
        metrics = done.1;
      }

  -- RoundTrip, for a caller that reads the response to its end and closes it.
  unfoldable pub round_trip :
      (Header → Header)
      → (Request → Option Response)
      → Handler
      → Option RequestMeta
      → ℕ
      → Request
      → Exchange
  unfolding outgoing request_event finish_exchange body_bytes
  round_trip inject inner h meta ts req =
      finish_exchange h meta ts (outgoing inject req)
        (request_emissions_of h meta (body_bytes req.body)) (inner (outgoing inject req))
