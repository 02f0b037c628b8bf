-- ===== src/Audit/Batcher.antt =====
-- internal/audit/batcher.go. Batcher and UnprocessedBatcher are one program over two types of
-- events, so the model is generic in the event. The state is what Add, Stop and the goroutine `run`
-- share, with the history of what was accepted, dropped and handed to `flush`.
pub mod Accounting
pub mod Invariant
pub mod Shutdown
pub mod Threshold
pub mod Channel
use codesteward_audit_proxy.Base.{
  ◌&&◌, ℕ, ◌*◌, ◌≡◌, Bool, true, false, Option, none, some, List, [], ◌∷◌, ◌++◌, ltb, leb, ◌==◌,
  if◌then◌else◌, ◌>>=◌, length,
}
use codesteward_audit_proxy.Base.Int.{ℤ, pos, negsuc, positive}

-- Where `run` stands: in the outer select, in the drain loop, or returned.
pub data Phase : Type 0 where
  running draining exited : Phase

pub record Batcher {ℓ} (E : Type ℓ) : Type ℓ where
  pub size : ℕ
  pub capacity : ℕ
  pub ch : List E
  pub done : Bool
  pub phase : Phase
  pub batch : List E
  pub handed : List (List E)
  pub accepted : List E
  pub dropped : List E

-- What one thread does at an instant; the goroutine's choice among ready cases is free. `meets` is an
-- Add that finds the goroutine waiting at an unbuffered channel, which BATCH_SIZE=0 makes.
pub data Action {ℓ} (E : Type ℓ) : Type ℓ where
  adds : E → Action E
  meets : E → Action E
  stops receives ticks sees_done drains returns : Action E

module _ {ℓ} {E : Type ℓ} where
  -- NewBatcher and the ticker and the batch that `run` makes at once, where `most` is the largest
  -- capacity that `make` allows a channel of these events. `none` where something panics: `make` on a
  -- negative size, or on a size whose tenfold is above `most` (if the tenfold wraps to a small int then
  -- `make` of the batch panics on the size itself), or the ticker on an interval that is not positive.
  unfoldable pub new_batcher : ℕ → ℤ → ℤ → Option (Batcher E)
  new_batcher most (negsuc n) interval = none
  new_batcher most (pos n) interval =
      if leb (n * 10) most && positive interval
      then some (record {
        size = n;
        capacity = n * 10;
        ch = [];
        done = false;
        phase = running;
        batch = [];
        handed = [];
        accepted = [];
        dropped = [];
      })
      else none

  -- Add: the event enters the channel, or is dropped where that is full.
  unfoldable pub add : E → Batcher E → Batcher E
  add e b =
      if ltb (length b.ch) b.capacity
      then record b { ch = b.ch ++ e ∷ []; accepted = b.accepted ++ e ∷ [] }
      else record b { dropped = b.dropped ++ e ∷ [] }

  -- Stop: `none` where a second close panics.
  unfoldable pub stop : Batcher E → Option (Batcher E)
  stop b = if b.done then none else some (record b { done = true })

  abbrev pub flush : Batcher E → Batcher E
  flush b = record b { handed = b.handed ++ b.batch ∷ []; batch = [] }

  abbrev pub flush_rest : Batcher E → List E → Batcher E
  flush_rest b [] = b
  flush_rest b (e ∷ es) = flush b

  -- `case e := <-b.ch` of the outer select, for the event that was taken.
  unfoldable pub on_event : E → Batcher E → Batcher E
  on_event e b =
      let b' = record b { batch = b.batch ++ e ∷ [] } in
      if leb b.size (length b'.batch) then flush b' else b'

  unfoldable pub receive : List E → Batcher E → Option (Batcher E)
  unfolding on_event
  receive [] b = none
  receive (e ∷ es) b = some (on_event e (record b { ch = es }))

  -- `case <-ticker.C`
  unfoldable pub on_tick : Batcher E → Batcher E
  on_tick b = flush_rest b b.batch

  -- One turn of the drain loop: `case e := <-b.ch`, or `default`.
  unfoldable pub drain_one : List E → Batcher E → Option (Batcher E)
  drain_one [] b = none
  drain_one (e ∷ es) b = some (record b { ch = es; batch = b.batch ++ e ∷ [] })

  unfoldable pub leave : List E → Batcher E → Option (Batcher E)
  leave [] b = let b' = flush_rest b b.batch in some (record b' { phase = exited })
  leave (e ∷ es) b = none

  -- An action that is not enabled gives `none`.
  unfoldable pub step_in : Phase → Action E → Batcher E → Option (Batcher E)
  unfolding add stop receive on_event on_tick drain_one leave
  step_in p (adds e) b = some (add e b)
  step_in p stops b = stop b
  step_in running receives b = receive b.ch b
  step_in running (meets e) b =
      if b.capacity == 0
      then some (on_event e (record b { accepted = b.accepted ++ e ∷ [] }))
      else none
  step_in running ticks b = some (on_tick b)
  step_in running sees_done b = if b.done then some (record b { phase = draining }) else none
  step_in draining drains b = drain_one b.ch b
  step_in draining returns b = leave b.ch b
  step_in p a b = none

  abbrev pub step : Action E → Batcher E → Option (Batcher E)
  step a b = step_in b.phase a b

  unfoldable pub run : List (Action E) → Batcher E → Option (Batcher E)
  run [] b = some b
  run (a ∷ as') b = step a b >>= run as'

  -- What happens next in some interleaving.
  pub data Reach (b : Batcher E) : Batcher E → Type ℓ where
    here : Reach b b
    next : {c d : Batcher E} (a : Action E) → Reach b c → step a c ≡ some d → Reach b d
