-- ===== src/Parser/OpenAi.antt =====
-- internal/parser/openai.go: the structs of a full response and its parser. Nested anonymous
-- structs have names of their own here.
pub mod Stream
pub mod Choices
pub mod Written
use codesteward_audit_proxy.Base.{
  ◌+◌, Option, none, some, List, [], ◌∷◌, ◌++◌, if◌then◌else◌, ◌>>=◌,
}
use codesteward_audit_proxy.Base.Bytes.{Bytes, codes}
use codesteward_audit_proxy.Base.Int.{ℤ, pos}
use codesteward_audit_proxy.Json.Value.{Value}
use codesteward_audit_proxy.Json.Decode.{
  is_tag, decode_struct, decode_pointer, decode_slice, decode_string, decode_int, unmarshal,
}
use codesteward_audit_proxy.Parser.Types.{
  ToolCall, TokenUsage, no_usage, ParseError, full_parse, add_text, or_empty_object,
}

pub record OpenAiResult : Type 0 where
  pub assistant_text : List Bytes
  pub tool_calls : List ToolCall
  pub model : Bytes
  pub usage : TokenUsage

abbrev pub no_result : OpenAiResult
no_result = record { assistant_text = []; tool_calls = []; model = []; usage = no_usage }

pub record OpenAiUsage : Type 0 where
  pub prompt_tokens : ℤ
  pub completion_tokens : ℤ

-- `Function` of a tool call.
pub record Function : Type 0 where
  pub name : Bytes
  pub arguments : Bytes

pub record Message : Type 0 where
  pub content : Bytes
  pub tool_calls : List Function

pub record OpenAiResponse : Type 0 where
  pub model : Bytes
  pub choices : List Message
  pub usage : Option OpenAiUsage

abbrev zero_usage : OpenAiUsage
zero_usage = record { prompt_tokens = pos 0; completion_tokens = pos 0 }

abbrev pub zero_function : Function
zero_function = record { name = []; arguments = [] }

abbrev zero_message : Message
zero_message = record { content = []; tool_calls = [] }

abbrev pub zero_response : OpenAiResponse
zero_response = record { model = []; choices = []; usage = none }

pub usage_field : Bytes → Bytes → Value → OpenAiUsage → Option OpenAiUsage
unfolding is_tag decode_int
usage_field key raw v u =
    if is_tag key "prompt_tokens"
    then (decode_int v u.prompt_tokens >>= λ n. some (record u { prompt_tokens = n }))
    else if is_tag key "completion_tokens"
    then (decode_int v u.completion_tokens >>= λ n. some (record u { completion_tokens = n }))
    else some u

-- `Usage *openAIUsage`
unfoldable pub decode_usage : Value → Option OpenAiUsage → Option (Option OpenAiUsage)
unfolding usage_field decode_pointer decode_struct
decode_usage = decode_pointer zero_usage (decode_struct usage_field)

function_field : Bytes → Bytes → Value → Function → Option Function
unfolding is_tag decode_string
function_field key raw v f =
    if is_tag key "name"
    then (decode_string v f.name >>= λ s. some (record f { name = s }))
    else if is_tag key "arguments"
    then (decode_string v f.arguments >>= λ s. some (record f { arguments = s }))
    else some f

unfoldable pub decode_function : Value → Function → Option Function
unfolding function_field decode_struct
decode_function = decode_struct function_field

pub tool_call_field : Bytes → Bytes → Value → Function → Option Function
unfolding is_tag decode_function
tool_call_field key raw v f = if is_tag key "function" then decode_function v f else some f

pub message_field : Bytes → Bytes → Value → Message → Option Message
unfolding is_tag decode_string decode_slice decode_struct tool_call_field
message_field key raw v m =
    if is_tag key "content"
    then (decode_string v m.content >>= λ s. some (record m { content = s }))
    else if is_tag key "tool_calls"
    then (decode_slice zero_function (decode_struct tool_call_field) v m.tool_calls >>= λ ts.
        some (record m { tool_calls = ts }))
    else some m

pub choice_field : Bytes → Bytes → Value → Message → Option Message
unfolding is_tag message_field decode_struct
choice_field key raw v m = if is_tag key "message" then decode_struct message_field v m else some m

pub response_field : Bytes → Bytes → Value → OpenAiResponse → Option OpenAiResponse
unfolding is_tag decode_string decode_slice decode_struct choice_field decode_usage
response_field key raw v r =
    if is_tag key "model"
    then (decode_string v r.model >>= λ s. some (record r { model = s }))
    else if is_tag key "choices"
    then (decode_slice zero_message (decode_struct choice_field) v r.choices >>= λ cs.
        some (record r { choices = cs }))
    else if is_tag key "usage"
    then (decode_usage v r.usage >>= λ u. some (record r { usage = u }))
    else some r

unfoldable pub decode_response : Value → OpenAiResponse → Option OpenAiResponse
unfolding response_field decode_struct
decode_response = decode_struct response_field

-- The usage that a response or a chunk sets, over the usage so far.
abbrev pub apply_usage : Option OpenAiUsage → TokenUsage → TokenUsage
apply_usage none old = old
apply_usage (some u) old = record {
  input_tokens = u.prompt_tokens;
  output_tokens = u.completion_tokens;
  cache_read_tokens = pos 0;
  cache_write_tokens = pos 0;
}

abbrev pub call_of : Function → ToolCall
call_of f = record { name = f.name; input = or_empty_object f.arguments }

-- The inner loop, over the tool calls of a choice.
unfoldable pub add_calls : OpenAiResult → List Function → OpenAiResult
add_calls r [] = r
add_calls r (f ∷ fs) = add_calls (record r { tool_calls = r.tool_calls ++ call_of f ∷ [] }) fs

-- The loop over the choices.
unfoldable pub add_choices : OpenAiResult → List Message → OpenAiResult
unfolding add_calls
add_choices r [] = r
add_choices r (m ∷ ms) =
    add_choices
      (add_calls (record r { assistant_text = add_text r.assistant_text m.content }) m.tool_calls)
      ms

unfoldable pub response_result : OpenAiResponse → OpenAiResult
response_result r = record no_result { model = r.model; usage = apply_usage r.usage no_usage }

unfoldable pub parse_open_ai_full : Bytes → OpenAiResult × Option ParseError
unfolding unmarshal decode_response add_choices response_result
parse_open_ai_full body = elim (unmarshal decode_response zero_response body) [
  | none ↦ (no_result, some (full_parse (codes "openai full parse: ") body))
  | some r ↦ (add_choices (response_result r) r.choices, none)
]
