-- ===== src/Parser/Anthropic/Stream.antt =====
-- internal/parser/anthropic.go: the events of a stream and the loop that replays them.
pub mod Blocks
pub mod Agreement
use codesteward_audit_proxy.Base.{
  Bool, Option, none, some, List, [], ◌∷◌, ◌++◌, if◌then◌else◌, ◌>>=◌,
}
use codesteward_audit_proxy.Base.Bytes.{Bytes, codes, eq_bytes}
use codesteward_audit_proxy.Base.Int.{ℤ, pos, eq_ℤ}
use codesteward_audit_proxy.Json.Value.{Value}
use codesteward_audit_proxy.Json.Decode.{
  is_tag, decode_struct, decode_pointer, decode_string, decode_int, unmarshal,
}
use codesteward_audit_proxy.Parser.Types.{ParseError, add_text, or_empty_object}
use codesteward_audit_proxy.Parser.Sse.{lines, scan_error, data_line}
use codesteward_audit_proxy.Parser.Anthropic.{
  AnthropicResult, no_result, AnthropicUsage, zero_usage, decode_usage, parse_anthropic_full,
}

-- What `message_start` carries.
pub record StartMessage : Type 0 where
  pub model : Bytes
  pub usage : AnthropicUsage

pub record ContentBlock : Type 0 where
  pub type : Bytes
  pub name : Bytes

pub record Delta : Type 0 where
  pub type : Bytes
  pub thinking : Bytes
  pub text : Bytes
  pub partial_json : Bytes

pub record AnthropicSseEvent : Type 0 where
  pub type : Bytes
  pub message : Option StartMessage
  pub index : ℤ
  pub content_block : Option ContentBlock
  pub delta : Option Delta
  pub usage : Option AnthropicUsage

abbrev pub zero_event : AnthropicSseEvent
zero_event = record {
  type = [];
  message = none;
  index = pos 0;
  content_block = none;
  delta = none;
  usage = none;
}

pub record StreamBlock : Type 0 where
  pub block_type : Bytes
  pub name : Bytes
  pub buf : Bytes

start_field : Bytes → Bytes → Value → StartMessage → Option StartMessage
unfolding is_tag decode_string decode_usage
start_field key raw v m =
    if is_tag key "model"
    then (decode_string v m.model >>= λ s. some (record m { model = s }))
    else if is_tag key "usage"
    then (decode_usage v m.usage >>= λ u. some (record m { usage = u }))
    else some m

content_block_field : Bytes → Bytes → Value → ContentBlock → Option ContentBlock
unfolding is_tag decode_string
content_block_field key raw v b =
    if is_tag key "type"
    then (decode_string v b.type >>= λ s. some (record b { type = s }))
    else if is_tag key "name"
    then (decode_string v b.name >>= λ s. some (record b { name = s }))
    else some b

delta_field : Bytes → Bytes → Value → Delta → Option Delta
unfolding is_tag decode_string
delta_field key raw v d =
    if is_tag key "type"
    then (decode_string v d.type >>= λ s. some (record d { type = s }))
    else if is_tag key "thinking"
    then (decode_string v d.thinking >>= λ s. some (record d { thinking = s }))
    else if is_tag key "text"
    then (decode_string v d.text >>= λ s. some (record d { text = s }))
    else if is_tag key "partial_json"
    then (decode_string v d.partial_json >>= λ s. some (record d { partial_json = s }))
    else some d

abbrev zero_start : StartMessage
zero_start = record { model = []; usage = zero_usage }

abbrev zero_block : ContentBlock
zero_block = record { type = []; name = [] }

abbrev zero_delta : Delta
zero_delta = record { type = []; thinking = []; text = []; partial_json = [] }

event_field : Bytes → Bytes → Value → AnthropicSseEvent → Option AnthropicSseEvent
unfolding is_tag decode_string decode_int decode_pointer decode_struct decode_usage start_field
    content_block_field delta_field
event_field key raw v e =
    if is_tag key "type"
    then (decode_string v e.type >>= λ s. some (record e { type = s }))
    else if is_tag key "message"
    then (decode_pointer zero_start (decode_struct start_field) v e.message >>= λ m.
        some (record e { message = m }))
    else if is_tag key "index"
    then (decode_int v e.index >>= λ i. some (record e { index = i }))
    else if is_tag key "content_block"
    then (decode_pointer zero_block (decode_struct content_block_field) v e.content_block >>= λ b.
        some (record e { content_block = b }))
    else if is_tag key "delta"
    then (decode_pointer zero_delta (decode_struct delta_field) v e.delta >>= λ d.
        some (record e { delta = d }))
    else if is_tag key "usage"
    then (decode_pointer zero_usage decode_usage v e.usage >>= λ u. some (record e { usage = u }))
    else some e

unfoldable pub decode_event : Value → AnthropicSseEvent → Option AnthropicSseEvent
unfolding event_field decode_struct
decode_event = decode_struct event_field

-- The map of the open blocks.
pub find_block : ℤ → List (ℤ × StreamBlock) → Option StreamBlock
find_block i [] = none
find_block i ((j, b) ∷ bs) = if eq_ℤ i j then some b else find_block i bs

pub remove_block : ℤ → List (ℤ × StreamBlock) → List (ℤ × StreamBlock)
remove_block i [] = []
remove_block i ((j, b) ∷ bs) =
    let rest = remove_block i bs in if eq_ℤ i j then rest else (j, b) ∷ rest

pub put_block : ℤ → StreamBlock → List (ℤ × StreamBlock) → List (ℤ × StreamBlock)
unfolding remove_block
put_block i b bs = (i, b) ∷ remove_block i bs

pub record Replay : Type 0 where
  pub result : AnthropicResult
  pub blocks : List (ℤ × StreamBlock)

abbrev pub initial : Replay
initial = record { result = no_result; blocks = [] }

-- The text that a delta writes.
unfoldable pub delta_text : Delta → Bytes
unfolding eq_bytes
delta_text d =
    if eq_bytes d.type (codes "thinking_delta")
    then d.thinking
    else if eq_bytes d.type (codes "text_delta")
    then d.text
    else if eq_bytes d.type (codes "input_json_delta")
    then d.partial_json
    else []

-- `case evMessageStart`
pub on_message_start : Replay → Option StartMessage → Replay
on_message_start s none = s
on_message_start s (some m) =
    let r = s.result in
    record s {
      result = record r {
        model = m.model;
        usage = record {
          input_tokens = m.usage.input_tokens;
          output_tokens = r.usage.output_tokens;
          cache_read_tokens = m.usage.cache_read_input_tokens;
          cache_write_tokens = m.usage.cache_creation_input_tokens;
        };
      };
    }

-- `case "message_delta"`
pub on_message_delta : Replay → Option AnthropicUsage → Replay
on_message_delta s none = s
on_message_delta s (some u) =
    let r = s.result in
    let old = r.usage in
    record s { result = record r { usage = record old { output_tokens = u.output_tokens } } }

-- `case evContentBlockStart`
pub on_block_start : Replay → ℤ → Option ContentBlock → Replay
unfolding put_block
on_block_start s i none = s
on_block_start s i (some c) = record s {
  blocks = put_block i (record { block_type = c.type; name = c.name; buf = [] }) s.blocks;
}

-- `case evContentBlockDelta`: the block is shared with the map, so the map sees the write.
pub on_block_delta : Replay → ℤ → Option StreamBlock → Option Delta → Replay
unfolding put_block delta_text
on_block_delta s i (some b) (some d) = record s {
  blocks = put_block i (record b { buf = b.buf ++ delta_text d }) s.blocks;
}
on_block_delta s i _ _ = s

-- What a closed block adds to the result.
pub close_block : AnthropicResult → StreamBlock → AnthropicResult
unfolding eq_bytes
close_block r b =
    if eq_bytes b.block_type (codes "thinking")
    then record r { thinking = add_text r.thinking b.buf }
    else if eq_bytes b.block_type (codes "text")
    then record r { assistant_text = add_text r.assistant_text b.buf }
    else if eq_bytes b.block_type (codes "tool_use")
    then record r {
      tool_calls = r.tool_calls ++ record { name = b.name; input = or_empty_object b.buf } ∷ [];
    }
    else r

-- `case evContentBlockStop`
pub on_block_stop : Replay → ℤ → Option StreamBlock → Replay
unfolding close_block remove_block
on_block_stop s i none = s
on_block_stop s i (some b) = record {
  result = close_block s.result b;
  blocks = remove_block i s.blocks;
}

-- The switch on the event's type.
unfoldable pub on_event : Replay → AnthropicSseEvent → Replay
unfolding eq_bytes find_block on_message_start on_message_delta on_block_start on_block_delta
    on_block_stop
on_event s e =
    if eq_bytes e.type (codes "message_start")
    then on_message_start s e.message
    else if eq_bytes e.type (codes "message_delta")
    then on_message_delta s e.usage
    else if eq_bytes e.type (codes "content_block_start")
    then on_block_start s e.index e.content_block
    else if eq_bytes e.type (codes "content_block_delta")
    then on_block_delta s e.index (find_block e.index s.blocks) e.delta
    else if eq_bytes e.type (codes "content_block_stop")
    then on_block_stop s e.index (find_block e.index s.blocks)
    else s

-- The event of a line, if the loop does not skip the line.
unfoldable pub line_event : Bytes → Option AnthropicSseEvent
unfolding data_line unmarshal decode_event
line_event line = data_line line >>= λ payload. unmarshal decode_event zero_event payload

unfoldable pub on_line : Replay → Bytes → Replay
unfolding line_event on_event
on_line s line = elim (line_event line) [ none ↦ s | some e ↦ on_event s e ]

unfoldable pub on_lines : Replay → List Bytes → Replay
unfolding on_line
on_lines s [] = s
on_lines s (l ∷ ls) = on_lines (on_line s l) ls

unfoldable pub parse_anthropic_stream : Bytes → AnthropicResult × Option ParseError
unfolding lines scan_error on_lines
parse_anthropic_stream body = ((on_lines initial (lines body)).result, scan_error body)

unfoldable pub parse_anthropic : Bytes → Bool → AnthropicResult × Option ParseError
unfolding parse_anthropic_stream parse_anthropic_full
parse_anthropic body is_stream =
    if is_stream then parse_anthropic_stream body else parse_anthropic_full body
