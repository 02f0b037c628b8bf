-- ===== src/Audit/Batcher/Invariant.antt =====
-- The history of a batcher: nothing accepted is lost, repeated or reordered on its way to `flush`.
use codesteward_audit_proxy.Base.{
  ℕ, ◌&&◌, ◌*◌, leb, ◌≤◌, ◌≡◌, refl, subst, inl, inr, some, List, [], ◌∷◌, ◌++◌, append-nil,
  append_assoc, arith, ◌==◌, ==_iff, Bool-cases, length, concat,
}
use codesteward_audit_proxy.Base.Int.{ℤ, pos, negsuc, positive}
use codesteward_audit_proxy.Audit.Batcher.{
  Phase, running, draining, exited, Batcher, Action, adds, meets, stops, receives, ticks, sees_done,
  drains, returns, new_batcher, stop, on_tick, step_in, step, Reach, here, next,
}
use codesteward_audit_proxy.Audit.Batcher.Accounting.{
  Inv, add-Inv, flush_rest-Inv, on_event-Inv, InvAfter, receive-Inv, drain_one-Inv, leave-Inv,
}

module _ {ℓ} {E : Type ℓ} where
  -- An event that meets the goroutine at an empty channel of no capacity.
  grow_batch :
      (hs bs cs acc : List E) (e : E)
      → length cs ≤ 0
      → hs ++ (bs ++ cs) ≡ acc
      → hs ++ ((bs ++ e ∷ []) ++ cs) ≡ acc ++ e ∷ []
  grow_batch hs bs [] acc e z h = rw (← h) (simp (append_assoc, append-nil))
  grow_batch hs bs (x ∷ cs) acc e z h = absurd (omega arith)

  met-Inv :
      (b : Batcher E) (e : E)
      → b.capacity ≡ 0
      → Inv b
      → Inv (record b {
        accepted = b.accepted ++ e ∷ [];
        batch = b.batch ++ e ∷ [];
        phase = draining;
      })
  met-Inv b e z v = record {
    accounted =
        grow_batch (concat b.handed) b.batch b.ch b.accepted e (omega (arith, v.room)) v.accounted;
    room = v.room;
    small = λ x. cc;
    nonempty = v.nonempty;
    finished = λ x. cc;
  }

  meets-Inv :
      (b : Batcher E) (e : E) → b.phase ≡ running → Inv b → InvAfter (step_in running (meets e) b)
  unfolding step_in
  meets-Inv b e r v = elim (Bool-cases (b.capacity == 0)) [
    | inr some_room ↦ rw some_room tt
    | inl no_room ↦ rw no_room (
        on_event-Inv e (record b { accepted = b.accepted ++ e ∷ [] }) r
          (met-Inv b e ((==_iff _ _).0 no_room) v))
  ]

  stop-Inv : (b : Batcher E) → Inv b → InvAfter (stop b)
  unfolding stop
  stop-Inv b v = elim (Bool-cases b.done) [
    | inl closed ↦ rw closed tt
    | inr open_still ↦ rw open_still (record {
      accounted = v.accounted;
      room = v.room;
      small = v.small;
      nonempty = v.nonempty;
      finished = v.finished;
    })
  ]

  sees_done-Inv : (b : Batcher E) → Inv b → InvAfter (step_in running sees_done b)
  unfolding step_in
  sees_done-Inv b v = elim (Bool-cases b.done) [
    | inr open_still ↦ rw open_still tt
    | inl closed ↦ rw closed (record {
      accounted = v.accounted;
      room = v.room;
      small = λ x. cc;
      nonempty = v.nonempty;
      finished = λ x. cc;
    })
  ]

  step_in-Inv :
      (p : Phase) (a : Action E) (b : Batcher E) → b.phase ≡ p → Inv b → InvAfter (step_in p a b)
  unfolding step_in on_tick
  step_in-Inv p (adds e) b q v = add-Inv e b v
  step_in-Inv p stops b q v = stop-Inv b v
  step_in-Inv running receives b q v = receive-Inv b b.ch refl q v
  step_in-Inv running (meets e) b q v = meets-Inv b e q v
  step_in-Inv running ticks b q v = flush_rest-Inv b b.batch refl v
  step_in-Inv running sees_done b q v = sees_done-Inv b v
  step_in-Inv running drains b q v = tt
  step_in-Inv running returns b q v = tt
  step_in-Inv draining receives b q v = tt
  step_in-Inv draining (meets e) b q v = tt
  step_in-Inv draining ticks b q v = tt
  step_in-Inv draining sees_done b q v = tt
  step_in-Inv draining drains b q v = drain_one-Inv b b.ch refl q v
  step_in-Inv draining returns b q v = leave-Inv b b.ch v
  step_in-Inv exited receives b q v = tt
  step_in-Inv exited (meets e) b q v = tt
  step_in-Inv exited ticks b q v = tt
  step_in-Inv exited sees_done b q v = tt
  step_in-Inv exited drains b q v = tt
  step_in-Inv exited returns b q v = tt

  pub step-Inv : (a : Action E) (b : Batcher E) {d : Batcher E} → Inv b → step a b ≡ some d → Inv d
  step-Inv a b v e = subst InvAfter e (step_in-Inv b.phase a b refl v)

  pub new_batcher-Inv :
      (most : ℕ) (size interval : ℤ) {b : Batcher E}
      → new_batcher most size interval ≡ some b
      → Inv b
  unfolding new_batcher
  new_batcher-Inv most (negsuc n) interval e = cc
  new_batcher-Inv most (pos n) interval e =
      elim (Bool-cases (leb (n * 10) most && positive interval)) [
        | inr never ↦ cc (rw never at e)
        | inl ticking ↦ subst InvAfter (rw ticking at e) (record {
          accounted = refl;
          room = omega arith;
          small = λ _. omega arith;
          nonempty = tt;
          finished = λ _. refl;
        })
      ]

  Reach-Inv : {b d : Batcher E} → Reach b d → Inv b → Inv d
  Reach-Inv here v = v
  Reach-Inv (next {c} a r e) v = step-Inv a c (Reach-Inv r v) e

  -- From a batcher that NewBatcher returns, whatever the threads do and in whatever order: what was
  -- accepted is, in order, what was handed to flush, then the batch, then the channel; the channel
  -- keeps within its capacity; a running batcher holds less than a batch of events, and none if the
  -- size is 0; no empty batch is ever handed over; and no event stays in the batch behind the
  -- goroutine's return.
  pub Reach-accounted :
      (most : ℕ) (size interval : ℤ) {b d : Batcher E}
      → new_batcher most size interval ≡ some b
      → Reach b d
      → Inv d
  Reach-accounted most size interval start r =
      Reach-Inv r (new_batcher-Inv most size interval start)
