-- ===== src/Parser/Anthropic.antt =====
-- internal/parser/anthropic.go: the structs of a full response and of the events of a stream, and
-- the two parsers. A `strings.Builder` is the text written so far; `blocks` maps an index to the
-- block that is open there, newest first.
pub mod Stream
pub mod Written
use codesteward_audit_proxy.Base.{
  ◌+◌, Option, none, some, List, [], ◌∷◌, ◌++◌, if◌then◌else◌, ◌>>=◌,
}
use codesteward_audit_proxy.Base.Bytes.{Bytes, codes, eq_bytes}
use codesteward_audit_proxy.Base.Int.{ℤ, pos}
use codesteward_audit_proxy.Json.Value.{Value}
use codesteward_audit_proxy.Json.Decode.{
  is_tag, decode_struct, decode_slice, decode_string, decode_int, unmarshal,
}
use codesteward_audit_proxy.Parser.Types.{
  ToolCall, TokenUsage, no_usage, ParseError, full_parse, add_text, or_empty_object,
}

pub record AnthropicResult : Type 0 where
  pub thinking : List Bytes
  pub assistant_text : List Bytes
  pub tool_calls : List ToolCall
  pub model : Bytes
  pub usage : TokenUsage

abbrev pub no_result : AnthropicResult
no_result = record {
  thinking = [];
  assistant_text = [];
  tool_calls = [];
  model = [];
  usage = no_usage;
}

pub record AnthropicUsage : Type 0 where
  pub input_tokens : ℤ
  pub output_tokens : ℤ
  pub cache_creation_input_tokens : ℤ
  pub cache_read_input_tokens : ℤ

pub record AnthropicContent : Type 0 where
  pub type : Bytes
  pub thinking : Bytes
  pub text : Bytes
  pub name : Bytes
  pub input : Bytes

pub record AnthropicMessage : Type 0 where
  pub model : Bytes
  pub content : List AnthropicContent
  pub usage : AnthropicUsage

abbrev pub zero_usage : AnthropicUsage
zero_usage = record {
  input_tokens = pos 0;
  output_tokens = pos 0;
  cache_creation_input_tokens = pos 0;
  cache_read_input_tokens = pos 0;
}

abbrev pub zero_content : AnthropicContent
zero_content = record { type = []; thinking = []; text = []; name = []; input = [] }

abbrev pub zero_message : AnthropicMessage
zero_message = record { model = []; content = []; usage = zero_usage }

usage_field : Bytes → Bytes → Value → AnthropicUsage → Option AnthropicUsage
unfolding is_tag decode_int
usage_field key raw v u =
    if is_tag key "input_tokens"
    then (decode_int v u.input_tokens >>= λ n. some (record u { input_tokens = n }))
    else if is_tag key "output_tokens"
    then (decode_int v u.output_tokens >>= λ n. some (record u { output_tokens = n }))
    else if is_tag key "cache_creation_input_tokens"
    then (decode_int v u.cache_creation_input_tokens >>= λ n.
        some (record u { cache_creation_input_tokens = n }))
    else if is_tag key "cache_read_input_tokens"
    then (decode_int v u.cache_read_input_tokens >>= λ n.
        some (record u { cache_read_input_tokens = n }))
    else some u

unfoldable pub decode_usage : Value → AnthropicUsage → Option AnthropicUsage
unfolding usage_field decode_struct
decode_usage = decode_struct usage_field

content_field : Bytes → Bytes → Value → AnthropicContent → Option AnthropicContent
unfolding is_tag decode_string
content_field key raw v b =
    if is_tag key "type"
    then (decode_string v b.type >>= λ s. some (record b { type = s }))
    else if is_tag key "thinking"
    then (decode_string v b.thinking >>= λ s. some (record b { thinking = s }))
    else if is_tag key "text"
    then (decode_string v b.text >>= λ s. some (record b { text = s }))
    else if is_tag key "name"
    then (decode_string v b.name >>= λ s. some (record b { name = s }))
    else if is_tag key "input"
    then some (record b { input = raw })
    else some b

unfoldable pub decode_content : Value → AnthropicContent → Option AnthropicContent
unfolding content_field decode_struct
decode_content = decode_struct content_field

message_field : Bytes → Bytes → Value → AnthropicMessage → Option AnthropicMessage
unfolding is_tag decode_string decode_slice decode_content decode_usage
message_field key raw v m =
    if is_tag key "model"
    then (decode_string v m.model >>= λ s. some (record m { model = s }))
    else if is_tag key "content"
    then (decode_slice zero_content decode_content v m.content >>= λ bs.
        some (record m { content = bs }))
    else if is_tag key "usage"
    then (decode_usage v m.usage >>= λ u. some (record m { usage = u }))
    else some m

unfoldable pub decode_message : Value → AnthropicMessage → Option AnthropicMessage
unfolding message_field decode_struct
decode_message = decode_struct message_field

-- One turn of the loop over the content blocks.
unfoldable pub add_block : AnthropicResult → AnthropicContent → AnthropicResult
unfolding eq_bytes
add_block r b =
    if eq_bytes b.type (codes "thinking")
    then record r { thinking = add_text r.thinking b.thinking }
    else if eq_bytes b.type (codes "text")
    then record r { assistant_text = add_text r.assistant_text b.text }
    else if eq_bytes b.type (codes "tool_use")
    then record r {
      tool_calls = r.tool_calls ++ record { name = b.name; input = or_empty_object b.input } ∷ [];
    }
    else r

unfoldable pub add_blocks : AnthropicResult → List AnthropicContent → AnthropicResult
unfolding add_block
add_blocks r [] = r
add_blocks r (b ∷ bs) = add_blocks (add_block r b) bs

-- The result with which the loop begins.
unfoldable pub message_result : AnthropicMessage → AnthropicResult
message_result m = record {
  thinking = [];
  assistant_text = [];
  tool_calls = [];
  model = m.model;
  usage = record {
    input_tokens = m.usage.input_tokens;
    output_tokens = m.usage.output_tokens;
    cache_read_tokens = m.usage.cache_read_input_tokens;
    cache_write_tokens = m.usage.cache_creation_input_tokens;
  };
}

unfoldable pub parse_anthropic_full : Bytes → AnthropicResult × Option ParseError
unfolding unmarshal decode_message add_blocks message_result
parse_anthropic_full body = elim (unmarshal decode_message zero_message body) [
  | none ↦ (no_result, some (full_parse (codes "anthropic full parse: ") body))
  | some m ↦ (add_blocks (message_result m) m.content, none)
]
