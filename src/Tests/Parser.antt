-- ===== src/Tests/Parser.antt =====
-- The parsers at concrete bodies.
use codesteward_audit_proxy.Base.{
  ◌++◌, zero, suc, ◌≡◌, refl, true, false, none, some, List, [], ◌∷◌, map, arith, get_or_else, drop,
  All,
}
use codesteward_audit_proxy.Base.Bytes.{Bytes, codes, eq_bytes}
use codesteward_audit_proxy.Base.Int.{pos}
use codesteward_audit_proxy.Json.Decode.{unmarshal}
use codesteward_audit_proxy.Parser.Sse.{lines, scan_error}
use codesteward_audit_proxy.Parser.Sse.Framing.{IsPayload, frame, payloads, payloads-frame}
use codesteward_audit_proxy.Parser.Sse.Laws.{Scanned, scan-Scanned}
use codesteward_audit_proxy.Parser.Anthropic.{
  AnthropicMessage, zero_usage, zero_content, zero_message, decode_message, parse_anthropic_full,
}
use codesteward_audit_proxy.Parser.Anthropic.Stream.{
  Delta, delta_text, line_event, parse_anthropic_stream,
}
use codesteward_audit_proxy.Parser.Anthropic.Stream.Agreement.{
  known_events, line_events, payload, said, Part, parse_anthropic_stream-full,
}
use codesteward_audit_proxy.Parser.Anthropic.Stream.Agreement as AnthropicAgreement
use codesteward_audit_proxy.Parser.OpenAi.{
  OpenAiResponse, Message, no_result, zero_response, decode_response, add_choices,
  parse_open_ai_full,
}
use codesteward_audit_proxy.Parser.OpenAi.Choices.{contents, calls, add_choices-collect}
use codesteward_audit_proxy.Parser.OpenAi.Stream.{
  Fragments, find_fragment, emit_calls, parse_open_ai_stream, parse_open_ai,
}
use codesteward_audit_proxy.Parser.OpenAi.Stream.Fragments.{Call, NoneBelow, emit_calls-lost}
use codesteward_audit_proxy.Parser.OpenAi.Stream.Agreement as OpenAiAgreement
use codesteward_audit_proxy.Parser.OpenAi.Stream.Agreement.{line_chunks, parse_open_ai_stream-full}
use codesteward_audit_proxy.Parser.Types.{no_usage}
use codesteward_audit_proxy.Parser.SapAiCore.{
  deployment_here, deployment_id, is_native_mode, parse_sap_ai_core,
}
use codesteward_audit_proxy.Parser.SapAiCore.Laws.{NoMatch, parse_sap_ai_core-deployment}
use codesteward_audit_proxy.Parser.Request.{parse_request, decode_body}
use codesteward_audit_proxy.Parser.Request.Laws.{user_texts, parse_request-scrubs}

scanned_crlf : Scanned (codes "a\r\nb") (lines (codes "a\r\nb")) (scan_error (codes "a\r\nb"))
scanned_crlf = scan-Scanned (codes "a\r\nb")

abbrev anthropic_body : Bytes
anthropic_body =
    codes
      "data: {\"type\":\"message_start\",\"message\":{\"model\":\"m\",\"usage\":{\"input_tokens\":3}}}\ndata: {\"type\":\"ping\"}\ndata: {\"type\":\"content_block_start\",\"index\":0,\"content_block\":{\"type\":\"text\"}}\ndata: {\"type\":\"content_block_delta\",\"index\":0,\"delta\":{\"type\":\"text_delta\",\"text\":\"he\"}}\ndata: {\"type\":\"content_block_delta\",\"index\":0,\"delta\":{\"type\":\"text_delta\",\"text\":\"y\"}}\ndata: {\"type\":\"content_block_stop\",\"index\":0}\ndata: {\"type\":\"content_block_start\",\"index\":1,\"content_block\":{\"type\":\"tool_use\",\"name\":\"Bash\"}}\ndata: {\"type\":\"content_block_delta\",\"index\":1,\"delta\":{\"type\":\"input_json_delta\",\"partial_json\":\"{}\"}}\ndata: {\"type\":\"content_block_stop\",\"index\":1}\ndata: {\"type\":\"message_delta\",\"usage\":{\"output_tokens\":5}}\n"

abbrev anthropic_message : Bytes
anthropic_message =
    codes
      "{\"model\":\"m\",\"content\":[{\"type\":\"text\",\"text\":\"hey\"},{\"type\":\"tool_use\",\"name\":\"Bash\",\"input\":{}}],\"usage\":{\"input_tokens\":3,\"output_tokens\":5}}"

abbrev hey : AnthropicMessage
hey = record {
  model = codes "m";
  content =
      record zero_content { type = codes "text"; text = codes "hey" }
      ∷ record zero_content { type = codes "tool_use"; name = codes "Bash"; input = codes "{}" }
      ∷ [];
  usage = record zero_usage { input_tokens = pos 3; output_tokens = pos 5 };
}

hey_message : unmarshal decode_message zero_message anthropic_message ≡ some hey
unfolding unmarshal decode_message
hey_message = refl

abbrev no_delta : Delta
no_delta = record { type = []; thinking = []; text = []; partial_json = [] }

abbrev hey_parts : List Part
hey_parts =
    record {
      index = pos 0;
      content = record zero_content { type = codes "text"; text = codes "hey" };
      deltas =
          record no_delta { type = codes "text_delta"; text = codes "he" }
          ∷ record no_delta { type = codes "text_delta"; text = codes "y" }
          ∷ [];
    }
    ∷ record {
      index = pos 1;
      content = record zero_content {
        type = codes "tool_use";
        name = codes "Bash";
        input = codes "{}";
      };
      deltas = record no_delta { type = codes "input_json_delta"; partial_json = codes "{}" } ∷ [];
    }
    ∷ []

hey-Streams : AnthropicAgreement.Streams anthropic_body hey
unfolding scan_error lines line_event line_events known_events payload said eq_bytes delta_text
hey-Streams = record {
  start = record { model = codes "m"; usage = record zero_usage { input_tokens = pos 3 } };
  parts = hey_parts;
  stop = none;
  final = record zero_usage { output_tokens = pos 5 };
  short_lines = refl;
  events = refl;
  model = refl;
  content = refl;
  input = refl;
  cache_read = refl;
  cache_write = refl;
  output = refl;
  carried = (refl, (refl, tt));
}

parse_anthropic_stream-full_example :
    parse_anthropic_stream anthropic_body ≡ parse_anthropic_full anthropic_message
parse_anthropic_stream-full_example =
    parse_anthropic_stream-full anthropic_body anthropic_message hey hey-Streams hey_message

abbrev open_ai_body : Bytes
open_ai_body =
    codes
      "data: {\"model\":\"g\",\"choices\":[{\"delta\":{\"content\":\"he\"}}]}\ndata: {\"model\":\"g\",\"choices\":[{\"delta\":{\"content\":\"y\",\"tool_calls\":[{\"index\":0,\"function\":{\"name\":\"Bash\",\"arguments\":\"{\"}}]}}]}\ndata: {\"model\":\"g\",\"choices\":[{\"delta\":{\"tool_calls\":[{\"index\":0,\"function\":{\"arguments\":\"}\"}}]}}]}\ndata: {\"model\":\"g\",\"choices\":[],\"usage\":{\"prompt_tokens\":3,\"completion_tokens\":5}}\ndata: [DONE]\n"

abbrev open_ai_message : Bytes
open_ai_message =
    codes
      "{\"model\":\"g\",\"choices\":[{\"message\":{\"content\":\"hey\",\"tool_calls\":[{\"function\":{\"name\":\"Bash\",\"arguments\":\"{}\"}}]}}],\"usage\":{\"prompt_tokens\":3,\"completion_tokens\":5}}"

abbrev bash_pieces : Call
bash_pieces = (
  record { name = codes "Bash"; arguments = codes "{" },
  record { name = []; arguments = codes "}" } ∷ [],
)

abbrev said_hey : Message
said_hey = record {
  content = codes "hey";
  tool_calls = record { name = codes "Bash"; arguments = codes "{}" } ∷ [];
}

abbrev hey_response : OpenAiResponse
hey_response = record {
  model = codes "g";
  choices = said_hey ∷ [];
  usage = some (record { prompt_tokens = pos 3; completion_tokens = pos 5 });
}

hey_decoded : unmarshal decode_response zero_response open_ai_message ≡ some hey_response
unfolding unmarshal decode_response
hey_decoded = refl

response-Streams : OpenAiAgreement.Streams open_ai_body hey_response
unfolding scan_error lines line_chunks
response-Streams = record {
  message = said_hey;
  pieces = bash_pieces ∷ [];
  short_lines = refl;
  one_choice = refl;
  model = refl;
  usage = refl;
  text = refl;
  deltas = refl;
  whole = refl;
}

parse_open_ai_stream-full_example :
    parse_open_ai_stream open_ai_body ≡ parse_open_ai_full open_ai_message
parse_open_ai_stream-full_example =
    parse_open_ai_stream-full open_ai_body open_ai_message hey_response response-Streams hey_decoded

-- A single call, under the index 1.
abbrev gap : Fragments
gap = (pos 1, record { name = codes "Bash"; arguments = codes "{}" }) ∷ []

gap_below : NoneBelow 1 gap
unfolding find_fragment
gap_below zero lt = refl
gap_below (suc i) lt = absurd (omega (arith, lt))

gap_lost : emit_calls 0 1 gap ≡ []
gap_lost = emit_calls-lost gap gap_below

said_hey_collected : add_choices no_result (said_hey ∷ []) ≡ record no_result {
  assistant_text = contents (said_hey ∷ []);
  tool_calls = calls (said_hey ∷ []);
}
said_hey_collected = add_choices-collect (said_hey ∷ []) no_result

abbrev sap_path : Bytes
sap_path = codes "/v2/deployments/d1/chat"

sap_found : deployment_id sap_path ≡ some (codes "d1")
unfolding deployment_id
sap_found = refl

sap_api : is_native_mode sap_path ≡ false
unfolding is_native_mode
sap_api = refl

abbrev sap_body : Bytes
sap_body = codes "{\"model\":\"g\",\"choices\":[{\"message\":{\"content\":\"hey\"}}]}"

sap_read : parse_open_ai sap_body false ≡ (
  record {
    assistant_text = codes "hey" ∷ [];
    tool_calls = [];
    model = codes "g";
    usage = no_usage;
  },
  none,
)
unfolding parse_open_ai
sap_read = refl

sap_first : NoMatch (codes "/v2") (codes "/deployments/" ++ (codes "d1" ++ b'/' ∷ codes "chat"))
unfolding deployment_here
sap_first = (refl, (refl, (refl, tt)))

parse_sap_ai_core-deployment_example :
    parse_sap_ai_core sap_body false sap_path (codes "default") ≡ (
      record {
        assistant_text = codes "hey" ∷ [];
        tool_calls = [];
        model = codes "d1";
        resource_group = codes "default";
        usage = no_usage;
      },
      none,
    )
parse_sap_ai_core-deployment_example =
    parse_sap_ai_core-deployment sap_body false (codes "/v2") (codes "d1") (codes "chat")
      (codes "default") sap_api sap_first refl (omega arith, (omega arith, tt)) sap_read

abbrev request_body : Bytes
request_body =
    codes
      "{\"messages\":[{\"role\":\"user\",\"content\":\"hi\"},{\"role\":\"assistant\",\"content\":\"no\"}]}"

parse_request-scrubs_example :
    ((parse_request request_body (drop 1) true).raw ≡ drop 1 request_body)
    × ((parse_request request_body (drop 1) true).user_messages
        ≡ map (drop 1) (user_texts (get_or_else (unmarshal decode_body [] request_body) [])))
    × ((parse_request request_body (drop 1) true).request_captured ≡ true)
parse_request-scrubs_example = parse_request-scrubs request_body (drop 1)

two_payloads : All IsPayload (codes "{}" ∷ codes "[1]" ∷ [])
unfolding eq_bytes
two_payloads = (
  record {
    not_empty = refl;
    not_done = refl;
    one_line = (refl, (refl, tt));
    no_return = refl;
    short = omega arith;
  },
  (
    record {
      not_empty = refl;
      not_done = refl;
      one_line = (refl, (refl, (refl, tt)));
      no_return = refl;
      short = omega arith;
    },
    tt,
  ),
)

payloads-frame_example :
    (payloads (lines (frame (codes "{}" ∷ codes "[1]" ∷ []))) ≡ codes "{}" ∷ codes "[1]" ∷ [])
    × (scan_error (frame (codes "{}" ∷ codes "[1]" ∷ [])) ≡ none)
payloads-frame_example = payloads-frame (codes "{}" ∷ codes "[1]" ∷ []) two_payloads
