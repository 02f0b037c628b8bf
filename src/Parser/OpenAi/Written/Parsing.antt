-- ===== src/Parser/OpenAi/Written/Parsing.antt =====
-- The parser of full responses on the bytes of a response.
use codesteward_audit_proxy.Base.{
  get_or_else, ◌≤◌, ◌≡◌, refl, ap, ◌∙◌, true, Option, none, some, List, [], ◌∷◌, ◌++◌, map, All,
}
use codesteward_audit_proxy.Base.Bytes.{Bytes}
use codesteward_audit_proxy.Json.Scan.{space, max_depth}
use codesteward_audit_proxy.Json.Scan.Grammar.{write, depth}
use codesteward_audit_proxy.Json.Pieces.{Escaped}
use codesteward_audit_proxy.Json.Unmarshal.{unmarshal-write}
use codesteward_audit_proxy.Json.Decode.{unmarshal}
use codesteward_audit_proxy.Parser.Types.{add_text, no_usage}
use codesteward_audit_proxy.Parser.OpenAi.{
  OpenAiResponse, zero_response, decode_response, call_of, apply_usage, add_choices,
  response_result, parse_open_ai_full,
}
use codesteward_audit_proxy.Parser.OpenAi.Choices.{contents, calls, add_choices-collect}
use codesteward_audit_proxy.Parser.OpenAi.Written.{
  WrittenCall, WrittenChoice, WrittenUsage, OpenAiBody, response_document, content_said, texts_of,
  calls_of, all_calls_of, usage_of, response_contents,
}
use codesteward_audit_proxy.Parser.OpenAi.Written.Calls.{
  function_of, content_of, message_of, counts_of,
}
use codesteward_audit_proxy.Parser.OpenAi.Written.Decoding.{response_of, decode_response-written}

add_text-content : (o : Option Escaped) → add_text [] (content_of o) ≡ content_said o
unfolding content_of content_said
add_text-content none = refl
add_text-content (some t) = refl

-- The loops over the choices say what the response says.
contents-written : (cs : List WrittenChoice) → contents (map message_of cs) ≡ texts_of cs
unfolding message_of content_of texts_of
contents-written [] = refl
contents-written (c ∷ cs) =
    ap (λ x. x ++ contents (map message_of cs)) (add_text-content c.message.content)
    ∙ ap (λ x. content_said c.message.content ++ x) (contents-written cs)

map-call_of : (cs : List WrittenCall) → map call_of (map function_of cs) ≡ calls_of cs
unfolding function_of calls_of
map-call_of [] = refl
map-call_of (c ∷ cs) = ap (λ x. call_of (function_of c) ∷ x) (map-call_of cs)

calls-written : (cs : List WrittenChoice) → calls (map message_of cs) ≡ all_calls_of cs
unfolding message_of all_calls_of
calls-written [] = refl
calls-written (c ∷ cs) =
    ap (λ x. x ++ calls (map message_of cs)) (map-call_of (get_or_else c.message.tool_calls []))
    ∙ ap (λ x. calls_of (get_or_else c.message.tool_calls []) ++ x) (calls-written cs)

apply_usage-written : (o : Option WrittenUsage) → apply_usage (counts_of o) no_usage ≡ usage_of o
unfolding counts_of usage_of
apply_usage-written none = refl
apply_usage-written (some u) = refl

parse_open_ai_full-some :
    (body : Bytes) (r : OpenAiResponse)
    → unmarshal decode_response zero_response body ≡ some r
    → parse_open_ai_full body ≡ (add_choices (response_result r) r.choices, none)
unfolding parse_open_ai_full
parse_open_ai_full-some body r e = rw (e, parse_open_ai_full) refl

-- The bytes of a response, with space behind them, are parsed as exactly what the response says, with no
-- error: over all choices and in order, the contents that are not null or empty and the tool calls, an
-- empty argument text replaced by an empty object; the model, and the counts where there is a usage.
-- The response has a model, the choices and a usage, which may be null, each once and in this order; a
-- choice has a message, which has a content, possibly null, and behind it tool calls or none; a call
-- has a function with a name and arguments, and a usage both counts. Members of other keys, with
-- documents of any shape, may stand anywhere in each of these objects. The bytes are those of the JSON
-- grammar without space between the tokens, nested no deeper than encoding/json allows.
pub parse_open_ai_full-write :
    (r : OpenAiBody) (rest : Bytes)
    → depth (response_document r) ≤ max_depth
    → All (λ c. space c ≡ true) rest
    → parse_open_ai_full (write (response_document r) ++ rest) ≡ (response_contents r, none)
unfolding response_contents response_result response_of
parse_open_ai_full-write r rest deep spaces =
    parse_open_ai_full-some (write (response_document r) ++ rest) (response_of r) (
      unmarshal-write decode_response zero_response (response_document r) rest deep spaces
      ∙ decode_response-written r)
    ∙ ap (λ x. (x, none))
        (add_choices-collect (map message_of r.choices) (response_result (response_of r))
          ∙ rw (contents-written r.choices, calls-written r.choices, apply_usage-written r.usage)
              refl)
