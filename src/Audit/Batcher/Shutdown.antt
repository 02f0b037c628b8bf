-- ===== src/Audit/Batcher/Shutdown.antt =====
-- Stop and the drain loop of a batcher.
use codesteward_audit_proxy.Base.{
  ◌≡◌, refl, sym, ap, ◌∙◌, subst, ◌≢◌, inl, inr, true, Option, none, some, List, [], ◌∷◌, ◌++◌,
  append-nil, arith, ltb, Bool-cases, length, concat, length-append,
}
use codesteward_audit_proxy.Audit.Batcher.{
  running, draining, exited, Batcher, Action, adds, meets, stops, receives, ticks, sees_done,
  drains, returns, add, stop, flush_rest, drain_one, leave, step_in, step, run, Reach, here, next,
}
use codesteward_audit_proxy.Audit.Batcher.Accounting.{Inv, flush_rest_batch}
use codesteward_audit_proxy.Audit.Batcher.Invariant.{step-Inv}

module _ {ℓ} {E : Type ℓ} where
  -- The turns of the drain loop at a channel with these events, when no Add comes in between.
  abbrev pub drain_turns : List E → List (Action E)
  drain_turns [] = returns ∷ []
  drain_turns (e ∷ es) = drains ∷ drain_turns es

  -- Everything accepted before has been handed over, and the goroutine has returned.
  pub record Drained (b d : Batcher E) : Type ℓ where
    pub returned : d.phase ≡ exited
    pub all_handed : concat d.handed ≡ b.accepted
    pub nothing_new : d.accepted ≡ b.accepted
    pub channel_empty : d.ch ≡ []

  flush_rest_fields :
      (b : Batcher E) (xs : List E)
      → ((flush_rest b xs).accepted ≡ b.accepted) × ((flush_rest b xs).ch ≡ b.ch)
  flush_rest_fields b [] = (refl, refl)
  flush_rest_fields b (x ∷ xs) = (refl, refl)

  empty_tail : (hs bs cs acc : List E) → bs ≡ [] → cs ≡ [] → hs ++ (bs ++ cs) ≡ acc → hs ≡ acc
  empty_tail hs [] [] acc p q h = simp append-nil at h
  empty_tail hs (x ∷ bs) cs acc p q h = cc
  empty_tail hs [] (x ∷ cs) acc p q h = cc

  -- The state that the goroutine leaves behind.
  abbrev gone : Batcher E → Batcher E
  gone b = let b' = flush_rest b b.batch in record b' { phase = exited }

  step-leave : (b : Batcher E) → b.phase ≡ draining → b.ch ≡ [] → step returns b ≡ some (gone b)
  unfolding step_in leave
  step-leave b q empty = rw (q, step_in) (rw (empty, leave))

  gone-Drained : (b : Batcher E) → b.phase ≡ draining → Inv b → b.ch ≡ [] → Drained b (gone b)
  gone-Drained b q v empty = record {
    returned = refl;
    all_handed =
        empty_tail _ _ _ _ (flush_rest_batch b b.batch refl) (kept.1 ∙ empty) after.accounted
        ∙ kept.0;
    nothing_new = kept.0;
    channel_empty = kept.1 ∙ empty;
  }
    where
      kept : ((flush_rest b b.batch).accepted ≡ b.accepted) × ((flush_rest b b.batch).ch ≡ b.ch)
      kept = flush_rest_fields b b.batch

      after : Inv (gone b)
      after = step-Inv returns b v (step-leave b q empty)

  abbrev taken : Batcher E → E → List E → Batcher E
  taken b e es = record b { ch = es; batch = b.batch ++ e ∷ [] }

  step-drains :
      (b : Batcher E) (e : E) (es : List E)
      → b.phase ≡ draining
      → b.ch ≡ e ∷ es
      → step drains b ≡ some (taken b e es)
  unfolding step_in drain_one
  step-drains b e es q c = rw (q, step_in) (rw (c, drain_one))

  run-drain_turns :
      (es : List E) (b : Batcher E)
      → b.phase ≡ draining
      → Inv b
      → b.ch ≡ es
      → (d : Batcher E) × (run (drain_turns es) b ≡ some d) × Drained b d
  unfolding run
  run-drain_turns [] b q v c = (gone b, rw (step-leave b q c), gone-Drained b q v c)
  run-drain_turns (e ∷ es) b q v c =
      let step_on = step-drains b e es q c in
      let (d, runs, done) =
        run-drain_turns es (taken b e es) q (step-Inv drains b v step_on) refl in
      (
        d,
        rw step_on runs,
        record {
          returned = done.returned;
          all_handed = done.all_handed;
          nothing_new = done.nothing_new;
          channel_empty = done.channel_empty;
        },
      )

  -- Once Stop has closed `done`, a running goroutine of a batcher that keeps its invariant can take the
  -- turns of its drain loop to the end: it returns, and then everything that was accepted has been
  -- handed to flush, in order, and the channel is empty. No Add comes in between.
  pub run-drain :
      (b : Batcher E)
      → b.phase ≡ running
      → b.done ≡ true
      → Inv b
      → (d : Batcher E) × (run (sees_done ∷ drain_turns b.ch) b ≡ some d) × Drained b d
  run-drain b q closed v =
      let seen = step-sees_done b q closed in
      let (d, runs, done) =
        run-drain_turns b.ch (record b { phase = draining }) refl (step-Inv sees_done b v seen)
          refl in
      (
        d,
        unfold run in rw seen runs,
        record {
          returned = done.returned;
          all_handed = done.all_handed;
          nothing_new = done.nothing_new;
          channel_empty = done.channel_empty;
        },
      )
    where
      step-sees_done :
          (c : Batcher E)
          → c.phase ≡ running
          → c.done ≡ true
          → step sees_done c ≡ some (record c { phase = draining })
      step-sees_done c r d = unfold step_in in rw (r, step_in) (rw (d))

  -- What an action keeps once the goroutine has returned.
  abbrev KeptBy : Batcher E → Option (Batcher E) → Type ℓ
  KeptBy c none = Unit
  KeptBy c (some d) = (d.phase ≡ exited) × (d.handed ≡ c.handed)

  step_in-exited : (a : Action E) (c : Batcher E) → c.phase ≡ exited → KeptBy c (step_in exited a c)
  unfolding step_in add stop
  step_in-exited (adds e) c q = elim (Bool-cases (ltb (length c.ch) c.capacity)) [
    | inl free ↦ rw free (q, refl)
    | inr full ↦ rw full (q, refl)
  ]
  step_in-exited stops c q = elim (Bool-cases c.done) [
    | inl closed ↦ rw closed tt
    | inr unclosed ↦ rw unclosed (q, refl)
  ]
  step_in-exited (meets e) c q = tt
  step_in-exited receives c q = tt
  step_in-exited ticks c q = tt
  step_in-exited sees_done c q = tt
  step_in-exited drains c q = tt
  step_in-exited returns c q = tt

  exited_step :
      (a : Action E) (c : Batcher E) {d : Batcher E}
      → c.phase ≡ exited
      → step a c ≡ some d
      → (d.phase ≡ exited) × (d.handed ≡ c.handed)
  exited_step a c q e =
      subst (KeptBy c) (sym (ap (λ p. step_in p a c) q) ∙ e) (step_in-exited a c q)

  -- Behind the goroutine's return nothing more is handed over, whatever is added and accepted.
  pub Reach-exited :
      {b d : Batcher E} → b.phase ≡ exited → Reach b d → (d.phase ≡ exited) × (d.handed ≡ b.handed)
  Reach-exited q here = (q, refl)
  Reach-exited q (next {c} a r e) =
      let before = Reach-exited q r in
      let after = exited_step a c before.0 e in (after.0, after.1 ∙ before.1)

  append_self : (xs ys : List E) → xs ≡ xs ++ ys → ys ≡ []
  append_self xs [] h = refl
  append_self xs (y ∷ ys) h = absurd (omega (arith, ap length h, length-append xs (y ∷ ys)))

  -- Stop itself hands nothing over and accepts nothing: where events wait in the batch or in the
  -- channel of a batcher that keeps its invariant, and Stop returns, not all accepted events have been
  -- handed to flush.
  pub stop-pending :
      (b : Batcher E) {d : Batcher E}
      → Inv b
      → b.batch ++ b.ch ≢ []
      → stop b ≡ some d
      → (d.handed ≡ b.handed) × (d.accepted ≡ b.accepted) × (concat d.handed ≢ d.accepted)
  unfolding stop
  stop-pending b v waits e = elim (Bool-cases b.done) [
    | inl closed ↦ cc (rw closed at e)
    | inr unclosed ↦ subst Pending (rw unclosed at e) (
      refl,
      refl,
      λ all. waits (append_self (concat b.handed) (b.batch ++ b.ch) (all ∙ sym v.accounted)),
    )
  ]
    where
      Pending : Option (Batcher E) → Type ℓ
      Pending none = Unit
      Pending (some d) =
          (d.handed ≡ b.handed) × (d.accepted ≡ b.accepted) × (concat d.handed ≢ d.accepted)
