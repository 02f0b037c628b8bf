-- ===== src/Parser/Anthropic/Stream/Agreement.antt =====
-- A stream that carries a message gives what the parser of full responses gives on that message.
use codesteward_audit_proxy.Base.{
  ◌≡◌, refl, sym, ap, ◌∙◌, inl, inr, Bool, false, ◌||◌, Option, none, some, List, [], ◌∷◌, ◌++◌,
  map, arith, if◌then◌else◌, Bool-cases, Option-cases, All,
}
use codesteward_audit_proxy.Base.Bytes.{Bytes, codes, eq_bytes}
use codesteward_audit_proxy.Base.Int.{ℤ, pos}
use codesteward_audit_proxy.Json.Decode.{unmarshal}
use codesteward_audit_proxy.Parser.Types.{or_empty_object}
use codesteward_audit_proxy.Parser.Sse.{lines, scan_error}
use codesteward_audit_proxy.Parser.Anthropic.{
  AnthropicResult, no_result, AnthropicUsage, AnthropicContent, AnthropicMessage, zero_message,
  decode_message, add_block, add_blocks, message_result, parse_anthropic_full,
}
use codesteward_audit_proxy.Parser.Anthropic.Stream.{
  StartMessage, Delta, AnthropicSseEvent, zero_event, Replay, initial, close_block, remove_block,
  on_event, line_event, on_line, on_lines, parse_anthropic_stream,
}
use codesteward_audit_proxy.Parser.Anthropic.Stream.Blocks.{
  on_events, delta_event, start_event, stop_event, deltas_text, on_event-start, on_events-fill,
}

-- What a block of a known type has to say.
unfoldable pub payload : AnthropicContent → Bytes
payload b =
    if eq_bytes b.type (codes "thinking")
    then b.thinking
    else if eq_bytes b.type (codes "text")
    then b.text
    else b.input

-- What counts of a text in a block of a type: a tool call with no input has the empty object.
unfoldable pub said : Bytes → Bytes → Bytes
said type t =
    if eq_bytes type (codes "thinking")
    then t
    else if eq_bytes type (codes "text")
    then t
    else or_empty_object t

close_block-add_block :
    (r : AnthropicResult) (b : AnthropicContent) (buf : Bytes)
    → said b.type buf ≡ said b.type (payload b)
    → close_block r (record { block_type = b.type; name = b.name; buf = buf }) ≡ add_block r b
unfolding close_block add_block payload said
close_block-add_block r b buf e = ground arith

-- A content block, with the index and the deltas under which a stream carries it.
pub record Part : Type 0 where
  pub index : ℤ
  pub content : AnthropicContent
  pub deltas : List Delta

abbrev pub part_events : Part → List AnthropicSseEvent
part_events p =
    start_event p.index p.content ∷ (map (delta_event p.index) p.deltas ++ stop_event p.index ∷ [])

abbrev pub parts_events : List Part → List AnthropicSseEvent
parts_events [] = []
parts_events (p ∷ ps) = part_events p ++ parts_events ps

abbrev pub Carries : Part → Type 0
Carries p = said p.content.type (deltas_text p.deltas) ≡ said p.content.type (payload p.content)

on_events-append :
    (xs ys : List AnthropicSseEvent) (s : Replay)
    → on_events s (xs ++ ys) ≡ on_events (on_events s xs) ys
unfolding on_events
on_events-append [] ys s = refl
on_events-append (x ∷ xs) ys s = on_events-append xs ys (on_event s x)

on_events-part :
    (p : Part) (s : Replay)
    → Carries p
    → on_events s (part_events p)
      ≡ record { result = add_block s.result p.content; blocks = remove_block p.index s.blocks }
unfolding on_events
on_events-part p s h =
    ap (λ t. on_events t (map (delta_event p.index) p.deltas ++ stop_event p.index ∷ []))
      (on_event-start s p.index p.content)
    ∙ on_events-fill p.deltas s.result s.blocks p.index _
    ∙ ap (λ r. record { result = r; blocks = remove_block p.index s.blocks })
        (close_block-add_block s.result p.content _ h)

on_events-parts :
    (ps : List Part) (r : AnthropicResult)
    → All Carries ps
    → on_events (record { result = r; blocks = [] }) (parts_events ps)
      ≡ record { result = add_blocks r (map (λ p. p.content) ps); blocks = [] }
unfolding on_events add_blocks remove_block
on_events-parts [] r h = refl
on_events-parts (p ∷ ps) r h =
    rw
      (
        on_events-append (part_events p) (parts_events ps) (record { result = r; blocks = [] }),
        on_events-part p (record { result = r; blocks = [] }) h.0,
      )
      (on_events-parts ps (add_block r p.content) h.1)

-- The types that the switch knows.
abbrev is_known : AnthropicSseEvent → Bool
is_known e =
    eq_bytes e.type (codes "message_start")
    || eq_bytes e.type (codes "message_delta")
    || eq_bytes e.type (codes "content_block_start")
    || eq_bytes e.type (codes "content_block_delta")
    || eq_bytes e.type (codes "content_block_stop")

-- The events that are not passed over, such as `ping` and `message_stop`.
unfoldable pub known_events : List AnthropicSseEvent → List AnthropicSseEvent
known_events [] = []
known_events (e ∷ es) = if is_known e then e ∷ known_events es else known_events es

on_event-unknown : (s : Replay) (e : AnthropicSseEvent) → is_known e ≡ false → on_event s e ≡ s
unfolding on_event
on_event-unknown s e h = ground arith

on_events-known :
    (es : List AnthropicSseEvent) (s : Replay) → on_events s es ≡ on_events s (known_events es)
unfolding on_events known_events
on_events-known [] s = refl
on_events-known (e ∷ es) s = elim (Bool-cases (is_known e)) [
  | inl known ↦ rw known (on_events-known es (on_event s e))
  | inr unknown ↦
      rw unknown (ap (λ t. on_events t es) (on_event-unknown s e unknown) ∙ on_events-known es s)
]

-- The events of the lines that carry one.
unfoldable pub line_events : List Bytes → List AnthropicSseEvent
unfolding line_event
line_events [] = []
line_events (l ∷ ls) = elim (line_event l) [ none ↦ line_events ls | some e ↦ e ∷ line_events ls ]

on_lines-events : (ls : List Bytes) (s : Replay) → on_lines s ls ≡ on_events s (line_events ls)
unfolding on_lines on_line line_events on_events
on_lines-events [] s = refl
on_lines-events (l ∷ ls) s = elim (Option-cases (line_event l)) [
  | inl skipped ↦ rw (skipped, on_line, line_events) (on_lines-events ls s)
  | inr (e, carried) ↦ rw (carried, on_line, line_events) (on_lines-events ls (on_event s e))
]

-- The events of a message: its start, its blocks one behind the other, and the final counts, whose
-- event may carry a delta of its own (the stop reason).
abbrev pub message_events :
    StartMessage → List Part → Option Delta → AnthropicUsage → List AnthropicSseEvent
message_events start parts stop final =
    record zero_event { type = codes "message_start"; message = some start }
    ∷ (parts_events parts
        ++ record zero_event { type = codes "message_delta"; delta = stop; usage = some final }
          ∷ [])

-- A body that streams the message `m`: every block under an index of its own choice, its text cut
-- into deltas at will, with lines and events between that the parser passes over.
pub record Streams (body : Bytes) (m : AnthropicMessage) : Type 0 where
  pub start : StartMessage
  pub parts : List Part
  pub stop : Option Delta
  pub final : AnthropicUsage
  pub short_lines : scan_error body ≡ none
  pub events : known_events (line_events (lines body)) ≡ message_events start parts stop final
  pub model : start.model ≡ m.model
  pub content : map (λ p. p.content) parts ≡ m.content
  pub input : start.usage.input_tokens ≡ m.usage.input_tokens
  pub cache_read : start.usage.cache_read_input_tokens ≡ m.usage.cache_read_input_tokens
  pub cache_write : start.usage.cache_creation_input_tokens ≡ m.usage.cache_creation_input_tokens
  pub output : final.output_tokens ≡ m.usage.output_tokens
  pub carried : All Carries parts

-- A result whose count of output tokens is replaced.
abbrev with_output : ℤ → AnthropicResult → AnthropicResult
with_output n r = let u = r.usage in record r { usage = record u { output_tokens = n } }

add_block-with_output :
    (n : ℤ) (r : AnthropicResult) (b : AnthropicContent)
    → add_block (with_output n r) b ≡ with_output n (add_block r b)
unfolding add_block
add_block-with_output n r b = ground arith

add_blocks-with_output :
    (n : ℤ) (bs : List AnthropicContent) (r : AnthropicResult)
    → add_blocks (with_output n r) bs ≡ with_output n (add_blocks r bs)
unfolding add_blocks
add_blocks-with_output n [] r = refl
add_blocks-with_output n (b ∷ bs) r =
    ap (λ t. add_blocks t bs) (add_block-with_output n r b)
    ∙ add_blocks-with_output n bs (add_block r b)

-- The result behind `message_start`.
abbrev start_result : StartMessage → AnthropicResult
start_result start = record no_result {
  model = start.model;
  usage = record {
    input_tokens = start.usage.input_tokens;
    output_tokens = pos 0;
    cache_read_tokens = start.usage.cache_read_input_tokens;
    cache_write_tokens = start.usage.cache_creation_input_tokens;
  };
}

on_events-message :
    (start : StartMessage) (parts : List Part) (stop : Option Delta) (final : AnthropicUsage)
    → All Carries parts
    → (on_events initial (message_events start parts stop final)).result
      ≡ add_blocks
          (with_output final.output_tokens (start_result start))
          (map (λ p. p.content) parts)
unfolding on_events on_event
on_events-message start parts stop final h =
    ap (λ s. s.result)
      (on_events-append (parts_events parts) _ (record { result = start_result start; blocks = [] })
        ∙ ap
            (λ s. on_event s (record zero_event {
              type = codes "message_delta";
              delta = stop;
              usage = some final;
            }))
            (on_events-parts parts (start_result start) h))
    ∙ sym (
        add_blocks-with_output final.output_tokens (map (λ p. p.content) parts)
          (start_result start))

start_result-message :
    (start : StartMessage) (final : AnthropicUsage) (m : AnthropicMessage)
    → start.model ≡ m.model
    → start.usage.input_tokens ≡ m.usage.input_tokens
    → start.usage.cache_read_input_tokens ≡ m.usage.cache_read_input_tokens
    → start.usage.cache_creation_input_tokens ≡ m.usage.cache_creation_input_tokens
    → final.output_tokens ≡ m.usage.output_tokens
    → with_output final.output_tokens (start_result start) ≡ message_result m
unfolding message_result
start_result-message start final m a b c d e = ground arith

-- A stream that carries a message is read as the full response with that message is: the same
-- thinking, texts and tool calls in the same order, the same model and the same counts, and no error.
-- Its blocks come one behind the other, and its lines fit the scanner.
-- Its blocks come one behind the other, and its lines fit the scanner.
-- Its blocks come one behind the other, and its lines fit the scanner.
-- Its blocks come one behind the other, and its lines fit the scanner.
-- Its blocks come one behind the other, and its lines fit the scanner.
-- Its blocks come one behind the other, and its lines fit the scanner.
-- Its blocks come one behind the other, and its lines fit the scanner.
-- Its blocks come one behind the other, and its lines fit the scanner.
-- Its blocks come one behind the other, and its lines fit the scanner.
-- Its blocks come one behind the other, and its lines fit the scanner.
-- Its blocks come one behind the other, and its lines fit the scanner.
-- Its blocks come one behind the other, and its lines fit the scanner.
-- Its blocks come one behind the other, and its lines fit the scanner.
-- Its blocks come one behind the other, and its lines fit the scanner.
-- Its blocks come one behind the other, and its lines fit the scanner.
-- Its blocks come one behind the other, and its lines fit the scanner.
-- Its blocks come one behind the other, and its lines fit the scanner.
-- Its blocks come one behind the other, and its lines fit the scanner.
-- Its blocks come one behind the other, and its lines fit the scanner.
-- Its blocks come one behind the other, and its lines fit the scanner.
-- Its blocks come one behind the other, and its lines fit the scanner.
-- Its blocks come one behind the other, and its lines fit the scanner.
-- Its blocks come one behind the other, and its lines fit the scanner.
-- Its blocks come one behind the other, and its lines fit the scanner.
-- Its blocks come one behind the other, and its lines fit the scanner.
pub parse_anthropic_stream-full :
    (body full : Bytes) (m : AnthropicMessage)
    → Streams body m
    → unmarshal decode_message zero_message full ≡ some m
    → parse_anthropic_stream body ≡ parse_anthropic_full full
unfolding parse_anthropic_stream parse_anthropic_full
parse_anthropic_stream-full body full m s parsed =
    rw (s.short_lines, parsed, parse_anthropic_full)
      (ap (λ r. (r, none))
        (ap (λ t. t.result)
            (on_lines-events (lines body) initial
              ∙ on_events-known (line_events (lines body)) initial
              ∙ ap (on_events initial) s.events)
          ∙ on_events-message s.start s.parts s.stop s.final s.carried
          ∙ ap (λ r. add_blocks r (map (λ p. p.content) s.parts))
              (start_result-message s.start s.final m s.model s.input s.cache_read s.cache_write
                s.output)
          ∙ ap (add_blocks (message_result m)) s.content))
