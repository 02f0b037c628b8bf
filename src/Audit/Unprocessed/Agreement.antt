-- ===== src/Audit/Unprocessed/Agreement.antt =====
-- The two batchers of internal/audit/batcher.go do the same.
use codesteward_audit_proxy.Base.{
  ℕ, ◌&&◌, ◌*◌, ◌≡◌, refl, ap, ◌∙◌, inl, inr, Option, none, some, List, [], ◌∷◌, ◌++◌, ltb, leb,
  ◌==◌, Bool-cases, ◌>>=◌, length,
}
use codesteward_audit_proxy.Base.Int.{ℤ, pos, negsuc, positive}
use codesteward_audit_proxy.Audit.Event.{UnprocessedEvent}
use codesteward_audit_proxy.Audit.Batcher.{
  Phase, running, draining, exited, Action, adds, meets, stops, receives, ticks, sees_done, drains,
  returns, Batcher, new_batcher, add, stop, flush_rest, on_event, receive, on_tick, drain_one,
  leave, step_in, run,
}
use codesteward_audit_proxy.Audit.Unprocessed.{
  UnprocessedBatcher, new_unprocessed_batcher, add_unprocessed, stop_unprocessed,
  flush_batched_rest, on_unprocessed, receive_unprocessed, drain_unprocessed, leave_unprocessed,
  step_unprocessed_in, run_unprocessed,
}

-- The state of one as a state of the other.
abbrev pub as_batcher : UnprocessedBatcher → Batcher UnprocessedEvent
as_batcher b = record {
  size = b.size;
  capacity = b.capacity;
  ch = b.ch;
  done = b.done;
  phase = b.phase;
  batch = b.batch;
  handed = b.handed;
  accepted = b.accepted;
  dropped = b.dropped;
}

abbrev pub as_batchers : Option UnprocessedBatcher → Option (Batcher UnprocessedEvent)
as_batchers none = none
as_batchers (some b) = some (as_batcher b)

new-agrees :
    (most : ℕ) (size interval : ℤ)
    → as_batchers (new_unprocessed_batcher most size interval) ≡ new_batcher most size interval
unfolding new_unprocessed_batcher new_batcher
new-agrees most (negsuc n) interval = refl
new-agrees most (pos n) interval = elim (Bool-cases (leb (n * 10) most && positive interval)) [
  | inl h ↦ rw h
  | inr h ↦ rw h
]

add-agrees :
    (e : UnprocessedEvent) (b : UnprocessedBatcher)
    → as_batcher (add_unprocessed e b) ≡ add e (as_batcher b)
unfolding add_unprocessed add
add-agrees e b = elim (Bool-cases (ltb (length b.ch) b.capacity)) [ inl h ↦ rw h | inr h ↦ rw h ]

stop-agrees : (b : UnprocessedBatcher) → as_batchers (stop_unprocessed b) ≡ stop (as_batcher b)
unfolding stop_unprocessed stop
stop-agrees b = elim (Bool-cases b.done) [ inl h ↦ rw h | inr h ↦ rw h ]

on_event-agrees :
    (e : UnprocessedEvent) (b : UnprocessedBatcher)
    → as_batcher (on_unprocessed e b) ≡ on_event e (as_batcher b)
unfolding on_unprocessed on_event
on_event-agrees e b = elim (Bool-cases (leb b.size (length (b.batch ++ e ∷ [])))) [
  | inl h ↦ rw h
  | inr h ↦ rw h
]

rest-agrees :
    (b : UnprocessedBatcher) (es : List UnprocessedEvent)
    → as_batcher (flush_batched_rest b es) ≡ flush_rest (as_batcher b) es
rest-agrees b [] = refl
rest-agrees b (e ∷ es) = refl

receive-agrees :
    (es : List UnprocessedEvent) (b : UnprocessedBatcher)
    → as_batchers (receive_unprocessed es b) ≡ receive es (as_batcher b)
unfolding receive_unprocessed receive
receive-agrees [] b = refl
receive-agrees (e ∷ es) b = ap some (on_event-agrees e (record b { ch = es }))

drain-agrees :
    (es : List UnprocessedEvent) (b : UnprocessedBatcher)
    → as_batchers (drain_unprocessed es b) ≡ drain_one es (as_batcher b)
unfolding drain_unprocessed drain_one
drain-agrees [] b = refl
drain-agrees (e ∷ es) b = refl

leave-agrees :
    (es : List UnprocessedEvent) (b : UnprocessedBatcher)
    → as_batchers (leave_unprocessed es b) ≡ leave es (as_batcher b)
unfolding leave_unprocessed leave
leave-agrees [] b =
    ap (λ (c : Batcher UnprocessedEvent). some (record c { phase = exited }))
      (rest-agrees b b.batch)
leave-agrees (e ∷ es) b = refl

step-agrees :
    (p : Phase) (a : Action UnprocessedEvent) (b : UnprocessedBatcher)
    → as_batchers (step_unprocessed_in p a b) ≡ step_in p a (as_batcher b)
unfolding step_unprocessed_in step_in on_tick
step-agrees running (adds e) b = ap some (add-agrees e b)
step-agrees draining (adds e) b = ap some (add-agrees e b)
step-agrees exited (adds e) b = ap some (add-agrees e b)
step-agrees running stops b = stop-agrees b
step-agrees draining stops b = stop-agrees b
step-agrees exited stops b = stop-agrees b
step-agrees running receives b = receive-agrees b.ch b
step-agrees running (meets e) b = elim (Bool-cases (b.capacity == 0)) [
  | inl h ↦ rw h (ap some (on_event-agrees e (record b { accepted = b.accepted ++ e ∷ [] })))
  | inr h ↦ rw h
]
step-agrees running ticks b = ap some (rest-agrees b b.batch)
step-agrees running sees_done b = elim (Bool-cases b.done) [ inl h ↦ rw h | inr h ↦ rw h ]
step-agrees running drains b = refl
step-agrees running returns b = refl
step-agrees draining drains b = drain-agrees b.ch b
step-agrees draining returns b = leave-agrees b.ch b
step-agrees draining (meets e) b = refl
step-agrees draining receives b = refl
step-agrees draining ticks b = refl
step-agrees draining sees_done b = refl
step-agrees exited (meets e) b = refl
step-agrees exited receives b = refl
step-agrees exited ticks b = refl
step-agrees exited sees_done b = refl
step-agrees exited drains b = refl
step-agrees exited returns b = refl

as_batchers->>= :
    (m : Option UnprocessedBatcher) (f : UnprocessedBatcher → Option UnprocessedBatcher)
    (g : Batcher UnprocessedEvent → Option (Batcher UnprocessedEvent))
    → ((b : UnprocessedBatcher) → as_batchers (f b) ≡ g (as_batcher b))
    → as_batchers (m >>= f) ≡ (as_batchers m >>= g)
as_batchers->>= none f g h = refl
as_batchers->>= (some b) f g h = h b

run-agrees :
    (as' : List (Action UnprocessedEvent)) (b : UnprocessedBatcher)
    → as_batchers (run_unprocessed as' b) ≡ run as' (as_batcher b)
unfolding run_unprocessed run
run-agrees [] b = refl
run-agrees (a ∷ as') b =
    as_batchers->>= (step_unprocessed_in b.phase a b) (run_unprocessed as') (run as')
      (run-agrees as')
    ∙ ap (λ m. m >>= run as') (step-agrees b.phase a b)

-- An UnprocessedBatcher does what a Batcher does: made with any size, interval and largest channel, and taken through
-- any sequence of calls and turns of its goroutine, it panics where a Batcher does, refuses the same
-- actions, and otherwise has the same channel, batch and batches handed to flush.
pub run_unprocessed-agrees :
    (most : ℕ) (size interval : ℤ) (as' : List (Action UnprocessedEvent))
    → as_batchers (new_unprocessed_batcher most size interval >>= run_unprocessed as')
      ≡ (new_batcher most size interval >>= run as')
run_unprocessed-agrees most size interval as' =
    as_batchers->>= (new_unprocessed_batcher most size interval) (run_unprocessed as') (run as')
      (run-agrees as')
    ∙ ap (λ m. m >>= run as') (new-agrees most size interval)
