-- ===== src/Audit/Unprocessed.antt =====
-- UnprocessedBatcher of internal/audit/batcher.go, which repeats the code of Batcher for the other
-- type of events: its own state and methods, with the same phases and actions.
pub mod Agreement
use codesteward_audit_proxy.Base.{
  ◌&&◌, ℕ, ◌*◌, Bool, true, false, Option, none, some, List, [], ◌∷◌, ◌++◌, ltb, leb, ◌==◌,
  if◌then◌else◌, ◌>>=◌, length,
}
use codesteward_audit_proxy.Base.Int.{ℤ, pos, negsuc, positive}
use codesteward_audit_proxy.Audit.Event.{UnprocessedEvent}
use codesteward_audit_proxy.Audit.Batcher.{
  Phase, running, draining, exited, Action, adds, meets, stops, receives, ticks, sees_done, drains,
  returns,
}

-- The fields of the struct, where `run` stands with its batch, and the history.
pub record UnprocessedBatcher : Type 0 where
  pub size : ℕ
  pub capacity : ℕ
  pub ch : List UnprocessedEvent
  pub done : Bool
  pub phase : Phase
  pub batch : List UnprocessedEvent
  pub handed : List (List UnprocessedEvent)
  pub accepted : List UnprocessedEvent
  pub dropped : List UnprocessedEvent

-- NewUnprocessedBatcher, with the ticker and the batch that `run` makes at once
unfoldable pub new_unprocessed_batcher : ℕ → ℤ → ℤ → Option UnprocessedBatcher
new_unprocessed_batcher most (negsuc n) interval = none
new_unprocessed_batcher most (pos n) interval =
    if leb (n * 10) most && positive interval
    then some (record {
      size = n;
      capacity = n * 10;
      ch = [];
      done = false;
      phase = running;
      batch = [];
      handed = [];
      accepted = [];
      dropped = [];
    })
    else none

-- Add
unfoldable pub add_unprocessed : UnprocessedEvent → UnprocessedBatcher → UnprocessedBatcher
add_unprocessed e b =
    if ltb (length b.ch) b.capacity
    then record b { ch = b.ch ++ e ∷ []; accepted = b.accepted ++ e ∷ [] }
    else record b { dropped = b.dropped ++ e ∷ [] }

-- Stop
unfoldable pub stop_unprocessed : UnprocessedBatcher → Option UnprocessedBatcher
stop_unprocessed b = if b.done then none else some (record b { done = true })

-- `b.flush(batch)` with the reset of the batch
abbrev pub flush_batched : UnprocessedBatcher → UnprocessedBatcher
flush_batched b = record b { handed = b.handed ++ b.batch ∷ []; batch = [] }

-- `if len(batch) > 0`
abbrev pub flush_batched_rest : UnprocessedBatcher → List UnprocessedEvent → UnprocessedBatcher
flush_batched_rest b [] = b
flush_batched_rest b (e ∷ es) = flush_batched b

-- `case e := <-b.ch` of the outer select
unfoldable pub on_unprocessed : UnprocessedEvent → UnprocessedBatcher → UnprocessedBatcher
on_unprocessed e b =
    let b' = record b { batch = b.batch ++ e ∷ [] } in
    if leb b.size (length b'.batch) then flush_batched b' else b'

unfoldable pub receive_unprocessed :
    List UnprocessedEvent → UnprocessedBatcher → Option UnprocessedBatcher
unfolding on_unprocessed
receive_unprocessed [] b = none
receive_unprocessed (e ∷ es) b = some (on_unprocessed e (record b { ch = es }))

-- One turn of the drain loop
unfoldable pub drain_unprocessed :
    List UnprocessedEvent → UnprocessedBatcher → Option UnprocessedBatcher
drain_unprocessed [] b = none
drain_unprocessed (e ∷ es) b = some (record b { ch = es; batch = b.batch ++ e ∷ [] })

unfoldable pub leave_unprocessed :
    List UnprocessedEvent → UnprocessedBatcher → Option UnprocessedBatcher
leave_unprocessed [] b =
    let b' = flush_batched_rest b b.batch in some (record b' { phase = exited })
leave_unprocessed (e ∷ es) b = none

unfoldable pub step_unprocessed_in :
    Phase → Action UnprocessedEvent → UnprocessedBatcher → Option UnprocessedBatcher
unfolding add_unprocessed stop_unprocessed receive_unprocessed on_unprocessed drain_unprocessed
    leave_unprocessed
step_unprocessed_in p (adds e) b = some (add_unprocessed e b)
step_unprocessed_in p stops b = stop_unprocessed b
step_unprocessed_in running receives b = receive_unprocessed b.ch b
step_unprocessed_in running (meets e) b =
    if b.capacity == 0
    then some (on_unprocessed e (record b { accepted = b.accepted ++ e ∷ [] }))
    else none
step_unprocessed_in running ticks b = some (flush_batched_rest b b.batch)
step_unprocessed_in running sees_done b =
    if b.done then some (record b { phase = draining }) else none
step_unprocessed_in draining drains b = drain_unprocessed b.ch b
step_unprocessed_in draining returns b = leave_unprocessed b.ch b
step_unprocessed_in p a b = none

unfoldable pub run_unprocessed :
    List (Action UnprocessedEvent) → UnprocessedBatcher → Option UnprocessedBatcher
unfolding step_unprocessed_in
run_unprocessed [] b = some b
run_unprocessed (a ∷ as') b = step_unprocessed_in b.phase a b >>= run_unprocessed as'
