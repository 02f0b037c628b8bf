-- ===== src/Tests/Handler.antt =====
-- The handler at concrete requests and responses.
use codesteward_audit_proxy.Base.{
  String, ◌≡◌, refl, true, false, none, some, List, [], ◌∷◌, is_nil, All,
}
use codesteward_audit_proxy.Base.Bytes.{Bytes, codes, eq_bytes}
use codesteward_audit_proxy.Base.Int.{pos}
use codesteward_audit_proxy.Audit.Event.{AuditEvent}
use codesteward_audit_proxy.Parser.Types.{TokenUsage, ParseError}
use codesteward_audit_proxy.Parser.Anthropic.{AnthropicResult}
use codesteward_audit_proxy.Parser.Anthropic.Stream.{parse_anthropic}
use codesteward_audit_proxy.Parser.OpenAi.{OpenAiResult}
use codesteward_audit_proxy.Parser.OpenAi.Stream.{parse_open_ai}
use codesteward_audit_proxy.Parser.SapAiCore.{
  SapAiCoreResult, parse_sap_ai_core, is_native_mode, deployment_id, sap_base,
}
use codesteward_audit_proxy.Parser.Request.{request_capture_disabled}
use codesteward_audit_proxy.Proxy.Http.{Header, canonical_key, find_value, Response}
use codesteward_audit_proxy.Proxy.Handler.{RequestMeta, Handler, extract_events}
use codesteward_audit_proxy.Proxy.Handler.Counters.{
  count_tokens, input_tokens_counter, output_tokens_counter, on_complete-counted,
}
use codesteward_audit_proxy.Proxy.Handler.Events.{usage_of, Turn}
use codesteward_audit_proxy.Proxy.Handler.Extraction.{
  extract_events-anthropic, extract_events-open_ai, extract_events-sap_ai_core,
}
use codesteward_audit_proxy.Proxy.Handler.Transport.{
  internal_headers, body_bytes, to_audit, request_event, outgoing, on_complete, round_trip,
}
use codesteward_audit_proxy.Proxy.Handler.Transport.Headers.{outgoing_kept}
use codesteward_audit_proxy.Proxy.Handler.Transport.Records.{
  RecordOf, on_complete-records, round_trip-records, request_event-private,
}
use codesteward_audit_proxy.Proxy.Tap.{tap_body, reads, closes, use_body}
use codesteward_audit_proxy.Proxy.Handler.Transport.Partial.{
  callback_emissions, PartRecorded, use_body-PartRecorded,
}
use codesteward_audit_proxy.Tests.Proxy.{request, router}

abbrev meta_of : String → RequestMeta
meta_of name = record {
  session_id = codes "s";
  turn_id = codes "t";
  agent = codes "claude-code";
  upstream_name = codes name;
  project = [];
  branch = [];
  user = [];
  team = [];
  method = codes "POST";
  start_time = 1;
  req_path = codes "/v1/x";
  resource_group = codes "default";
}

abbrev usage_3_5 : TokenUsage
usage_3_5 = record {
  input_tokens = pos 3;
  output_tokens = pos 5;
  cache_read_tokens = pos 0;
  cache_write_tokens = pos 0;
}

abbrev pub anthropic_body : Bytes
anthropic_body =
    codes
      "{\"model\":\"m\",\"content\":[{\"type\":\"thinking\",\"thinking\":\"hm\"},{\"type\":\"text\",\"text\":\"hey\"}],\"usage\":{\"input_tokens\":3,\"output_tokens\":5}}"

abbrev anthropic_result : AnthropicResult
anthropic_result = record {
  thinking = codes "hm" ∷ [];
  assistant_text = codes "hey" ∷ [];
  tool_calls = [];
  model = codes "m";
  usage = usage_3_5;
}

anthropic_parsed : parse_anthropic anthropic_body false ≡ (anthropic_result, none)
unfolding parse_anthropic
anthropic_parsed = refl

anthropic_turn :
    (es : List AuditEvent) × (extract_events (meta_of "anthropic") 2 anthropic_body false
      ≡ (some es, none))
    × Turn
        (meta_of "anthropic")
        2
        anthropic_body
        []
        usage_3_5
        (codes "m")
        (codes "hm" ∷ [])
        (codes "hey" ∷ [])
        es
anthropic_turn =
    extract_events-anthropic (meta_of "anthropic") 2 anthropic_body false anthropic_result refl
      anthropic_parsed refl

extract_events-anthropic_example :
    (es : List AuditEvent) × (extract_events (meta_of "anthropic") 2 anthropic_body false
      ≡ (some es, none))
    × Turn
        (meta_of "anthropic")
        2
        anthropic_body
        []
        usage_3_5
        (codes "m")
        (codes "hm" ∷ [])
        (codes "hey" ∷ [])
        es
extract_events-anthropic_example =
    extract_events-anthropic (meta_of "anthropic") 2 anthropic_body false anthropic_result refl
      anthropic_parsed refl

abbrev open_ai_body : Bytes
open_ai_body =
    codes
      "{\"model\":\"g\",\"choices\":[{\"message\":{\"content\":\"hey\"}}],\"usage\":{\"prompt_tokens\":3,\"completion_tokens\":5}}"

abbrev open_ai_result : OpenAiResult
open_ai_result = record {
  assistant_text = codes "hey" ∷ [];
  tool_calls = [];
  model = codes "g";
  usage = usage_3_5;
}

open_ai_parsed : parse_open_ai open_ai_body false ≡ (open_ai_result, none)
unfolding parse_open_ai
open_ai_parsed = refl

extract_events-open_ai_example :
    (es : List AuditEvent) × (extract_events (meta_of "openai") 2 open_ai_body false
      ≡ (some es, none))
    × Turn (meta_of "openai") 2 open_ai_body [] usage_3_5 (codes "g") [] (codes "hey" ∷ []) es
extract_events-open_ai_example =
    extract_events-open_ai (meta_of "openai") 2 open_ai_body false open_ai_result refl
      open_ai_parsed refl

abbrev sap_result : SapAiCoreResult
sap_result = record {
  assistant_text = codes "hey" ∷ [];
  tool_calls = [];
  model = codes "g";
  resource_group = codes "default";
  usage = usage_3_5;
}

sap_parsed :
    parse_sap_ai_core open_ai_body false (codes "/v1/x") (codes "default") ≡ (sap_result, none)
unfolding parse_sap_ai_core parse_open_ai is_native_mode deployment_id sap_base
sap_parsed = refl

sap_events :
    (es : List AuditEvent) × (extract_events (meta_of "sap-ai-core") 2 open_ai_body false
      ≡ (some es, none))
    × Turn (meta_of "sap-ai-core") 2 open_ai_body [] usage_3_5 (codes "g") [] (codes "hey" ∷ []) es
sap_events =
    extract_events-sap_ai_core (meta_of "sap-ai-core") 2 open_ai_body false sap_result refl
      sap_parsed refl

abbrev pub answer : Response
answer = record { status_code = pos 200; header = []; body = anthropic_body }

abbrev pub no_text : ParseError → Bytes
no_text e = []

on_complete-records_example :
    (let out = (on_complete no_text true (meta_of "anthropic") 2 answer anthropic_body false).0 in
      (is_nil out ≡ false) × All (RecordOf (meta_of "anthropic") 2 answer anthropic_body) out)
on_complete-records_example =
    on_complete-records no_text (meta_of "anthropic") 2 answer anthropic_body false

abbrev pub handler : Handler
handler = record {
  project = [];
  branch = [];
  scrub = λ s. s;
  capture_requests = false;
  router = router;
  unprocessed = true;
}

round_trip-records_example :
    (let x =
        round_trip no_text
          (λ h. h)
          (λ r. some answer)
          handler
          (some (meta_of "anthropic"))
          2
          request in
      (x.request_emissions
        ≡ to_audit (request_event handler (meta_of "anthropic") (body_bytes request.body)) ∷ [])
      × (x.sent ≡ outgoing (λ h. h) request)
      × (x.response ≡ some answer)
      × (is_nil x.response_emissions ≡ false))
round_trip-records_example =
    round_trip-records no_text (λ h. h) (λ r. some answer) handler (meta_of "anthropic") 2 request
      refl

request_event-private_example :
    (request_event handler (meta_of "anthropic") (codes "a")
      ≡ request_event handler (meta_of "anthropic") (codes "b"))
    × ((request_event handler (meta_of "anthropic") (codes "a")).raw ≡ request_capture_disabled)
    × ((request_event handler (meta_of "anthropic") (codes "a")).user_messages ≡ [])
    × ((request_event handler (meta_of "anthropic") (codes "a")).request_captured ≡ false)
request_event-private_example =
    request_event-private handler (meta_of "anthropic") (codes "a") (codes "b") refl

not_internal :
    All (λ key. eq_bytes (canonical_key (codes key)) (codes "Accept") ≡ false) internal_headers
unfolding canonical_key eq_bytes
not_internal = (refl, (refl, (refl, (refl, (refl, (refl, (refl, (refl, tt))))))))

outgoing_kept_example :
    (find_value (codes "Accept") (outgoing (λ h. h) request).header
      ≡ find_value (codes "Accept") request.header)
    × ((outgoing (λ h. h) request).method ≡ request.method)
    × ((outgoing (λ h. h) request).host ≡ request.host)
    × ((outgoing (λ h. h) request).url ≡ request.url)
    × (body_bytes (outgoing (λ h. h) request).body ≡ body_bytes request.body)
outgoing_kept_example = outgoing_kept (λ h. h) request (codes "Accept") (λ h. refl) not_internal

-- A propagator that writes a trace context.
abbrev traced : Header → Header
traced header =
    (codes "Traceparent", codes "00-0af7651916cd43dd8448eb211c80319c-b7ad6b7169203331-01") ∷ header

-- A body in three pieces, of which the caller reads two and closes then.
use_body-PartRecorded_example :
    (let t =
        use_body
          (tap_body answer.header (codes "a" ∷ codes "b" ∷ codes "c" ∷ []))
          (reads ∷ reads ∷ closes ∷ []) in
      PartRecorded no_text
        (meta_of "anthropic")
        2
        answer
        (codes "a" ∷ codes "b" ∷ codes "c" ∷ [])
        t
        (callback_emissions no_text true (meta_of "anthropic") 2 answer t.completed))
use_body-PartRecorded_example =
    use_body-PartRecorded no_text (meta_of "anthropic") 2 answer
      (codes "a" ∷ codes "b" ∷ codes "c" ∷ []) (reads ∷ reads ∷ closes ∷ [])

on_complete-counted_example :
    (let found = anthropic_turn in
      let after =
        count_tokens
          (on_complete no_text true (meta_of "anthropic") 2 answer anthropic_body false).1
          (input_tokens_counter, output_tokens_counter) in
      (after.0.total ≡ pos 3)
      × (after.1.total ≡ pos 5)
      × All (λ event. usage_of event ≡ usage_3_5) found.0)
on_complete-counted_example =
    on_complete-counted no_text true (meta_of "anthropic") 2 answer anthropic_body false
      (input_tokens_counter, output_tokens_counter) anthropic_turn.1 anthropic_turn.2
