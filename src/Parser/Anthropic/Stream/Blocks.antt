-- ===== src/Parser/Anthropic/Stream/Blocks.antt =====
-- A stream that carries a message gives what the full response gives.
use codesteward_audit_proxy.Base.{
  ◌≡◌, refl, ap, ◌∙◌, inl, inr, true, some, List, [], ◌∷◌, ◌++◌, map, append-nil, append_assoc,
  Bool-cases,
}
use codesteward_audit_proxy.Base.Bytes.{Bytes, codes}
use codesteward_audit_proxy.Base.Int.{ℤ, eq_ℤ, eq_ℤ_iff}
use codesteward_audit_proxy.Parser.Anthropic.{AnthropicResult, AnthropicContent}
use codesteward_audit_proxy.Parser.Anthropic.Stream.{
  Delta, AnthropicSseEvent, zero_event, StreamBlock, find_block, remove_block, put_block, Replay,
  delta_text, on_block_delta, close_block, on_block_stop, on_event,
}

unfoldable pub on_events : Replay → List AnthropicSseEvent → Replay
on_events s [] = s
on_events s (e ∷ es) = on_events (on_event s e) es

eq_ℤ_refl : (i : ℤ) → eq_ℤ i i ≡ true
eq_ℤ_refl i = (eq_ℤ_iff i i).1 refl

-- The map of the open blocks, by the key that is looked up.
find_block-put :
    (i : ℤ) (b : StreamBlock) (bs : List (ℤ × StreamBlock))
    → find_block i (put_block i b bs) ≡ some b
unfolding find_block put_block
find_block-put i b bs = rw (eq_ℤ_refl i)

remove_block_idem :
    (i : ℤ) (bs : List (ℤ × StreamBlock)) → remove_block i (remove_block i bs) ≡ remove_block i bs
unfolding remove_block
remove_block_idem i [] = refl
remove_block_idem i ((j, b) ∷ bs) = elim (Bool-cases (eq_ℤ i j)) [
  | inl same ↦ rw same (remove_block_idem i bs)
  | inr other ↦ rw other (rw other (ap (◌∷◌ (j, b)) (remove_block_idem i bs)))
]

remove_block-put :
    (i : ℤ) (b : StreamBlock) (bs : List (ℤ × StreamBlock))
    → remove_block i (put_block i b bs) ≡ remove_block i bs
unfolding remove_block put_block
remove_block-put i b bs = rw (eq_ℤ_refl i) (remove_block_idem i bs)

put_block-put :
    (i : ℤ) (a b : StreamBlock) (bs : List (ℤ × StreamBlock))
    → put_block i a (put_block i b bs) ≡ put_block i a bs
unfolding put_block
put_block-put i a b bs = ap (◌∷◌ (i, a)) (remove_block-put i b bs)

-- The deltas of an open block at index `i`, which go to its buffer.
abbrev pub delta_event : ℤ → Delta → AnthropicSseEvent
delta_event i d = record zero_event {
  type = codes "content_block_delta";
  index = i;
  delta = some d;
}

abbrev pub start_event : ℤ → AnthropicContent → AnthropicSseEvent
start_event i b = record zero_event {
  type = codes "content_block_start";
  index = i;
  content_block = some (record { type = b.type; name = b.name });
}

abbrev pub stop_event : ℤ → AnthropicSseEvent
stop_event i = record zero_event { type = codes "content_block_stop"; index = i }

-- The text of some deltas.
abbrev pub deltas_text : List Delta → Bytes
deltas_text [] = []
deltas_text (d ∷ ds) = delta_text d ++ deltas_text ds

on_event-delta :
    (s : Replay) (i : ℤ) (d : Delta) (b : StreamBlock)
    → find_block i s.blocks ≡ some b
    → on_event s (delta_event i d)
      ≡ record s { blocks = put_block i (record b { buf = b.buf ++ delta_text d }) s.blocks }
unfolding on_event
on_event-delta s i d b e = rw (e, on_block_delta)

pub on_event-start :
    (s : Replay) (i : ℤ) (c : AnthropicContent)
    → on_event s (start_event i c) ≡ record s {
      blocks = put_block i (record { block_type = c.type; name = c.name; buf = [] }) s.blocks;
    }
unfolding on_event
on_event-start s i c = refl

on_event-stop :
    (s : Replay) (i : ℤ) (b : StreamBlock)
    → find_block i s.blocks ≡ some b
    → on_event s (stop_event i)
      ≡ record { result = close_block s.result b; blocks = remove_block i s.blocks }
unfolding on_event
on_event-stop s i b e = rw (e, on_block_stop)

-- A block that is open at `i`, with `b` so far, is filled by deltas and closed.
pub on_events-fill :
    (ds : List Delta) (r : AnthropicResult) (blocks : List (ℤ × StreamBlock)) (i : ℤ)
    (b : StreamBlock)
    → on_events
        (record { result = r; blocks = put_block i b blocks })
        (map (delta_event i) ds ++ stop_event i ∷ [])
      ≡ record {
        result = close_block r (record b { buf = b.buf ++ deltas_text ds });
        blocks = remove_block i blocks;
      }
unfolding on_events
on_events-fill [] r blocks i b = rw (
  append-nil,
  on_event-stop (record { result = r; blocks = put_block i b blocks }) i b
      (find_block-put i b blocks),
  remove_block-put,
)
on_events-fill (d ∷ ds) r blocks i b =
    ap (λ s. on_events s (map (delta_event i) ds ++ stop_event i ∷ []))
      (on_event-delta (record { result = r; blocks = put_block i b blocks }) i d b
          (find_block-put i b blocks)
        ∙ ap (λ bs. record { result = r; blocks = bs })
            (put_block-put i (record b { buf = b.buf ++ delta_text d }) b blocks))
    ∙ on_events-fill ds r blocks i (record b { buf = b.buf ++ delta_text d })
    ∙ ap
        (λ t. record {
          result = close_block r (record b { buf = t });
          blocks = remove_block i blocks;
        })
        (append_assoc b.buf (delta_text d) (deltas_text ds))
