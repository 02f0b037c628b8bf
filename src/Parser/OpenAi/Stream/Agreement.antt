-- ===== src/Parser/OpenAi/Stream/Agreement.antt =====
-- A stream of chunks that carries a response gives what the parser of full responses gives.
use codesteward_audit_proxy.Base.{
  ◌≡◌, refl, sym, ap, ◌∙◌, inl, inr, none, some, List, [], ◌∷◌, ◌++◌, map, append-nil, append_assoc,
  Option-cases,
}
use codesteward_audit_proxy.Base.Bytes.{Bytes}
use codesteward_audit_proxy.Json.Decode.{unmarshal}
use codesteward_audit_proxy.Parser.Types.{TokenUsage, no_usage, add_text}
use codesteward_audit_proxy.Parser.Sse.{lines, scan_error}
use codesteward_audit_proxy.Parser.OpenAi.{
  Message, OpenAiResponse, zero_response, decode_response, apply_usage, call_of, add_choices,
  response_result, parse_open_ai_full,
}
use codesteward_audit_proxy.Parser.OpenAi.Choices.{add_choices-collect}
use codesteward_audit_proxy.Parser.OpenAi.Stream.{
  ToolCallDelta, ChoiceDelta, OpenAiChunk, write_fragments, Collected, nothing_yet, first_model,
  on_choices, on_chunk, line_chunk, on_line, on_lines, emit, parse_open_ai_stream,
}
use codesteward_audit_proxy.Parser.OpenAi.Stream.Fragments.{
  Call, whole_call, call_deltas, write_fragments-append, emit_calls-call_deltas,
}

unfoldable pub line_chunks : List Bytes → List OpenAiChunk
unfolding line_chunk
line_chunks [] = []
line_chunks (l ∷ ls) = elim (line_chunk l) [ none ↦ line_chunks ls | some c ↦ c ∷ line_chunks ls ]

-- What a stream says in all: its texts, its tool-call deltas, the first model that is named, and the
-- last usage.
abbrev pub choices_text : List ChoiceDelta → Bytes
choices_text [] = []
choices_text (d ∷ ds) = d.content ++ choices_text ds

abbrev pub choices_deltas : List ChoiceDelta → List ToolCallDelta
choices_deltas [] = []
choices_deltas (d ∷ ds) = d.tool_calls ++ choices_deltas ds

abbrev pub stream_text : List OpenAiChunk → Bytes
stream_text [] = []
stream_text (c ∷ cs) = choices_text c.choices ++ stream_text cs

abbrev pub stream_deltas : List OpenAiChunk → List ToolCallDelta
stream_deltas [] = []
stream_deltas (c ∷ cs) = choices_deltas c.choices ++ stream_deltas cs

abbrev pub stream_model : Bytes → List OpenAiChunk → Bytes
stream_model m [] = m
stream_model m (c ∷ cs) = stream_model (first_model m c.model) cs

abbrev pub stream_usage : TokenUsage → List OpenAiChunk → TokenUsage
stream_usage u [] = u
stream_usage u (c ∷ cs) = stream_usage (apply_usage c.usage u) cs

on_chunks : Collected → List OpenAiChunk → Collected
on_chunks s [] = s
on_chunks s (c ∷ cs) = on_chunks (on_chunk s c) cs

on_lines-chunks : (ls : List Bytes) (s : Collected) → on_lines s ls ≡ on_chunks s (line_chunks ls)
unfolding on_lines on_line line_chunks on_chunks
on_lines-chunks [] s = refl
on_lines-chunks (l ∷ ls) s = elim (Option-cases (line_chunk l)) [
  | inl skipped ↦ rw (skipped, on_line, line_chunks) (on_lines-chunks ls s)
  | inr (c, carried) ↦ rw (carried, on_line, line_chunks) (on_lines-chunks ls (on_chunk s c))
]

on_choices-collect :
    (ds : List ChoiceDelta) (s : Collected)
    → on_choices s ds ≡ record s {
      text_buf = s.text_buf ++ choices_text ds;
      fragments = write_fragments (choices_deltas ds) s.fragments;
    }
unfolding on_choices
on_choices-collect [] s = unfold write_fragments in simp append-nil
on_choices-collect (d ∷ ds) s =
    on_choices-collect ds (record s {
      text_buf = s.text_buf ++ d.content;
      fragments = write_fragments d.tool_calls s.fragments;
    })
    ∙ simp (append_assoc, write_fragments-append)

on_chunks-collect :
    (cs : List OpenAiChunk) (s : Collected)
    → on_chunks s cs ≡ record {
      model = stream_model s.model cs;
      usage = stream_usage s.usage cs;
      fragments = write_fragments (stream_deltas cs) s.fragments;
      text_buf = s.text_buf ++ stream_text cs;
    }
unfolding on_chunks on_chunk
on_chunks-collect [] s = unfold write_fragments in simp append-nil
on_chunks-collect (c ∷ cs) s =
    ap (λ t. on_chunks t cs)
      (on_choices-collect c.choices
        (record s { model = first_model s.model c.model; usage = apply_usage c.usage s.usage }))
    ∙ on_chunks-collect cs _
    ∙ simp (append_assoc, write_fragments-append)

-- A body that streams a response with one choice: its text and its tool calls cut into chunks at
-- will, the calls one behind the other under the indices from 0 on.
pub record Streams (body : Bytes) (r : OpenAiResponse) : Type 0 where
  pub message : Message
  pub pieces : List Call
  pub short_lines : scan_error body ≡ none
  pub one_choice : r.choices ≡ message ∷ []
  pub model : stream_model [] (line_chunks (lines body)) ≡ r.model
  pub usage : stream_usage no_usage (line_chunks (lines body)) ≡ apply_usage r.usage no_usage
  pub text : stream_text (line_chunks (lines body)) ≡ message.content
  pub deltas : stream_deltas (line_chunks (lines body)) ≡ call_deltas 0 pieces
  pub whole : map whole_call pieces ≡ message.tool_calls

-- What the loop has collected at the end of such a stream.
abbrev collected : OpenAiResponse → Message → List Call → Collected
collected r m pieces = record {
  model = r.model;
  usage = apply_usage r.usage no_usage;
  fragments = write_fragments (call_deltas 0 pieces) [];
  text_buf = m.content;
}

emit-collected :
    (r : OpenAiResponse) (m : Message) (pieces : List Call)
    → r.choices ≡ m ∷ []
    → map whole_call pieces ≡ m.tool_calls
    → emit (collected r m pieces) ≡ add_choices (response_result r) r.choices
unfolding emit response_result
emit-collected r m pieces one same =
    ap
      (λ ts. record {
        assistant_text = add_text [] m.content;
        tool_calls = ts;
        model = r.model;
        usage = apply_usage r.usage no_usage;
      })
      (emit_calls-call_deltas pieces ∙ ap (map call_of) same)
    ∙ sym (
        ap (add_choices (response_result r)) one
        ∙ add_choices-collect (m ∷ []) (response_result r)
        ∙ simp append-nil)

on_lines-collected :
    (body : Bytes) (r : OpenAiResponse) (s : Streams body r)
    → on_lines nothing_yet (lines body) ≡ collected r s.message s.pieces
on_lines-collected body r s =
    on_lines-chunks (lines body) nothing_yet
    ∙ on_chunks-collect (line_chunks (lines body)) nothing_yet
    ∙ cc (s.model, s.usage, s.text, s.deltas)

-- A stream that carries a response of one choice is read as the full response is: the same text, the
-- same tool calls in the same order, the same model and counts, and no error. The deltas of its calls
-- come one behind the other, indexed from 0, and its lines fit the scanner. The deltas of its calls
-- come one behind the other, indexed from 0, and its lines fit the scanner. The deltas of its calls
-- come one behind the other, indexed from 0, and its lines fit the scanner. The deltas of its calls
-- come one behind the other, indexed from 0, and its lines fit the scanner. The deltas of its calls
-- come one behind the other, indexed from 0, and its lines fit the scanner. The deltas of its calls
-- come one behind the other, indexed from 0, and its lines fit the scanner. The deltas of its calls
-- come one behind the other, indexed from 0, and its lines fit the scanner. The deltas of its calls
-- come one behind the other, indexed from 0, and its lines fit the scanner. The deltas of its calls
-- come one behind the other, indexed from 0, and its lines fit the scanner. The deltas of its calls
-- come one behind the other, indexed from 0, and its lines fit the scanner. The deltas of its calls
-- come one behind the other, indexed from 0, and its lines fit the scanner. The deltas of its calls
-- come one behind the other, indexed from 0, and its lines fit the scanner. The deltas of its calls
-- come one behind the other, indexed from 0, and its lines fit the scanner. The deltas of its calls
-- come one behind the other, indexed from 0, and its lines fit the scanner. The deltas of its calls
-- come one behind the other, indexed from 0, and its lines fit the scanner. The deltas of its calls
-- come one behind the other, indexed from 0, and its lines fit the scanner. The deltas of its calls
-- come one behind the other, indexed from 0, and its lines fit the scanner. The deltas of its calls
-- come one behind the other, indexed from 0, and its lines fit the scanner. The deltas of its calls
-- come one behind the other, indexed from 0, and its lines fit the scanner. The deltas of its calls
-- come one behind the other, indexed from 0, and its lines fit the scanner. The deltas of its calls
-- come one behind the other, indexed from 0, and its lines fit the scanner. The deltas of its calls
-- come one behind the other, indexed from 0, and its lines fit the scanner. The deltas of its calls
-- come one behind the other, indexed from 0, and its lines fit the scanner. The deltas of its calls
-- come one behind the other, indexed from 0, and its lines fit the scanner. The deltas of its calls
-- come one behind the other, indexed from 0, and its lines fit the scanner.
pub parse_open_ai_stream-full :
    (body full : Bytes) (r : OpenAiResponse)
    → Streams body r
    → unmarshal decode_response zero_response full ≡ some r
    → parse_open_ai_stream body ≡ parse_open_ai_full full
unfolding parse_open_ai_stream parse_open_ai_full
parse_open_ai_stream-full body full r s parsed =
    rw (s.short_lines, parsed, parse_open_ai_stream, parse_open_ai_full)
      (ap (λ t. (t, none))
        (ap emit (on_lines-collected body r s)
          ∙ emit-collected r s.message s.pieces s.one_choice s.whole))
