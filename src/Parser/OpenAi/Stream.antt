-- ===== src/Parser/OpenAi/Stream.antt =====
-- internal/parser/openai.go: the chunks of a stream, the loop that collects them, and the emission
-- of the tool calls. `fragments` maps an index to the fragment collected there.
pub mod Fragments
pub mod Agreement
use codesteward_audit_proxy.Base.{
  ℕ, zero, suc, ◌+◌, Bool, Option, none, some, List, [], ◌∷◌, ◌++◌, if◌then◌else◌, ◌>>=◌, length,
}
use codesteward_audit_proxy.Base.Bytes.{Bytes}
use codesteward_audit_proxy.Base.Int.{ℤ, pos, eq_ℤ}
use codesteward_audit_proxy.Json.Value.{Value}
use codesteward_audit_proxy.Json.Decode.{
  is_tag, decode_struct, decode_slice, decode_string, decode_int, unmarshal,
}
use codesteward_audit_proxy.Parser.Types.{ToolCall, TokenUsage, ParseError, add_text}
use codesteward_audit_proxy.Parser.Sse.{lines, scan_error, data_line}
use codesteward_audit_proxy.Parser.OpenAi.{
  OpenAiResult, no_result, OpenAiUsage, decode_usage, Function, zero_function, decode_function,
  apply_usage, call_of, parse_open_ai_full,
}

-- An entry of `delta.tool_calls`.
pub record ToolCallDelta : Type 0 where
  pub index : ℤ
  pub function : Function

pub record ChoiceDelta : Type 0 where
  pub content : Bytes
  pub tool_calls : List ToolCallDelta

pub record OpenAiChunk : Type 0 where
  pub model : Bytes
  pub choices : List ChoiceDelta
  pub usage : Option OpenAiUsage

abbrev zero_tool_call : ToolCallDelta
zero_tool_call = record { index = pos 0; function = zero_function }

abbrev zero_delta : ChoiceDelta
zero_delta = record { content = []; tool_calls = [] }

abbrev zero_chunk : OpenAiChunk
zero_chunk = record { model = []; choices = []; usage = none }

tool_call_field : Bytes → Bytes → Value → ToolCallDelta → Option ToolCallDelta
unfolding is_tag decode_int decode_function
tool_call_field key raw v t =
    if is_tag key "index"
    then (decode_int v t.index >>= λ i. some (record t { index = i }))
    else if is_tag key "function"
    then (decode_function v t.function >>= λ f. some (record t { function = f }))
    else some t

delta_field : Bytes → Bytes → Value → ChoiceDelta → Option ChoiceDelta
unfolding is_tag decode_string decode_slice decode_struct tool_call_field
delta_field key raw v d =
    if is_tag key "content"
    then (decode_string v d.content >>= λ s. some (record d { content = s }))
    else if is_tag key "tool_calls"
    then (decode_slice zero_tool_call (decode_struct tool_call_field) v d.tool_calls >>= λ ts.
        some (record d { tool_calls = ts }))
    else some d

choice_field : Bytes → Bytes → Value → ChoiceDelta → Option ChoiceDelta
unfolding is_tag decode_struct delta_field
choice_field key raw v d = if is_tag key "delta" then decode_struct delta_field v d else some d

chunk_field : Bytes → Bytes → Value → OpenAiChunk → Option OpenAiChunk
unfolding is_tag decode_string decode_slice decode_struct choice_field decode_usage
chunk_field key raw v c =
    if is_tag key "model"
    then (decode_string v c.model >>= λ s. some (record c { model = s }))
    else if is_tag key "choices"
    then (decode_slice zero_delta (decode_struct choice_field) v c.choices >>= λ ds.
        some (record c { choices = ds }))
    else if is_tag key "usage"
    then (decode_usage v c.usage >>= λ u. some (record c { usage = u }))
    else some c

unfoldable pub decode_chunk : Value → OpenAiChunk → Option OpenAiChunk
unfolding chunk_field decode_struct
decode_chunk = decode_struct chunk_field

-- `toolFragment`: the name and the arguments written so far.
abbrev pub Fragments : Type 0
Fragments = List (ℤ × Function)

unfoldable pub find_fragment : ℤ → Fragments → Option Function
find_fragment i [] = none
find_fragment i ((j, f) ∷ fs) = if eq_ℤ i j then some f else find_fragment i fs

-- The fragment at an index, made empty if it is not there, is written to.
unfoldable pub write_fragment : ToolCallDelta → Fragments → Fragments
write_fragment t [] = (t.index, t.function) ∷ []
write_fragment t ((j, f) ∷ fs) =
    let rest = write_fragment t fs in
    if eq_ℤ t.index j
    then (
      j,
      record { name = f.name ++ t.function.name; arguments = f.arguments ++ t.function.arguments },
    )
      ∷ fs
    else (j, f) ∷ rest

pub record Collected : Type 0 where
  pub model : Bytes
  pub usage : TokenUsage
  pub fragments : Fragments
  pub text_buf : Bytes

abbrev pub nothing_yet : Collected
nothing_yet = record { model = []; usage = no_result.usage; fragments = []; text_buf = [] }

unfoldable pub write_fragments : List ToolCallDelta → Fragments → Fragments
unfolding write_fragment
write_fragments [] fs = fs
write_fragments (t ∷ ts) fs = write_fragments ts (write_fragment t fs)

unfoldable pub on_choices : Collected → List ChoiceDelta → Collected
unfolding write_fragments
on_choices s [] = s
on_choices s (d ∷ ds) =
    on_choices
      (record s {
        text_buf = s.text_buf ++ d.content;
        fragments = write_fragments d.tool_calls s.fragments;
      })
      ds

-- The first model that is named stays.
abbrev pub first_model : Bytes → Bytes → Bytes
first_model [] new = new
first_model (c ∷ s) new = c ∷ s

unfoldable pub on_chunk : Collected → OpenAiChunk → Collected
unfolding on_choices
on_chunk s c =
    on_choices
      (record s { model = first_model s.model c.model; usage = apply_usage c.usage s.usage })
      c.choices

unfoldable pub line_chunk : Bytes → Option OpenAiChunk
unfolding data_line unmarshal decode_chunk
line_chunk line = data_line line >>= λ payload. unmarshal decode_chunk zero_chunk payload

unfoldable pub on_line : Collected → Bytes → Collected
unfolding line_chunk on_chunk
on_line s line = elim (line_chunk line) [ none ↦ s | some c ↦ on_chunk s c ]

unfoldable pub on_lines : Collected → List Bytes → Collected
unfolding on_line
on_lines s [] = s
on_lines s (l ∷ ls) = on_lines (on_line s l) ls

-- `for i := 0; i < len(fragments); i++`, with `n` turns left.
unfoldable pub emit_calls : ℕ → ℕ → Fragments → List ToolCall
unfolding find_fragment
emit_calls i zero fs = []
emit_calls i (suc n) fs = elim (find_fragment (pos i) fs) [
  | none ↦ emit_calls (i + 1) n fs
  | some f ↦ call_of f ∷ emit_calls (i + 1) n fs
]

unfoldable pub emit : Collected → OpenAiResult
unfolding emit_calls
emit s = record {
  assistant_text = add_text [] s.text_buf;
  tool_calls = emit_calls 0 (length s.fragments) s.fragments;
  model = s.model;
  usage = s.usage;
}

unfoldable pub parse_open_ai_stream : Bytes → OpenAiResult × Option ParseError
unfolding lines scan_error on_lines emit
parse_open_ai_stream body = elim (scan_error body) [
  | some e ↦ (no_result, some e)
  | none ↦ (emit (on_lines nothing_yet (lines body)), none)
]

unfoldable pub parse_open_ai : Bytes → Bool → OpenAiResult × Option ParseError
unfolding parse_open_ai_stream parse_open_ai_full
parse_open_ai body is_stream =
    if is_stream then parse_open_ai_stream body else parse_open_ai_full body
