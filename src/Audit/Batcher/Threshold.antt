-- ===== src/Audit/Batcher/Threshold.antt =====
-- The flush of a batcher at its size.
use codesteward_audit_proxy.Base.{
  ℕ, ◌+◌, ◌≤◌, ◌<◌, ◌≡◌, refl, ap, ◌∙◌, true, false, some, List, [], ◌∷◌, ◌++◌, append_assoc, arith,
  leb, length, length-append,
}
use codesteward_audit_proxy.Audit.Batcher.{
  running, Batcher, Action, receives, on_event, receive, step_in, step, run,
}

module _ {ℓ} {E : Type ℓ} where
  abbrev pub receive_all : List E → List (Action E)
  receive_all [] = []
  receive_all (x ∷ xs) = receives ∷ receive_all xs

  step-receives :
      (b : Batcher E) (e : E) (es : List E)
      → b.phase ≡ running
      → b.ch ≡ e ∷ es
      → step receives b ≡ some (on_event e (record b { ch = es }))
  unfolding step_in receive
  step-receives b e es q c = rw (q, step_in) (rw (c, receive))

  on_event-full :
      (b : Batcher E) (e : E)
      → length b.batch + 1 ≡ b.size
      → on_event e b ≡ record b { batch = []; handed = b.handed ++ (b.batch ++ e ∷ []) ∷ [] }
  unfolding on_event
  on_event-full b e n =
      rw (
        leb_true b.size (length (b.batch ++ e ∷ []))
          (omega (arith, length-append b.batch (e ∷ []))))
    where
      leb_true : (m n : ℕ) → m ≤ n → leb m n ≡ true
      leb_true m n h = ground arith

  on_event-short :
      (b : Batcher E) (e : E)
      → length b.batch + 1 < b.size
      → on_event e b ≡ record b { batch = b.batch ++ e ∷ [] }
  unfolding on_event
  on_event-short b e n = rw (
      leb_false b.size (length (b.batch ++ e ∷ [])) (omega (arith, length-append b.batch (e ∷ []))))
    where
      leb_false : (m n : ℕ) → n < m → leb m n ≡ false
      leb_false m n h = ground arith

  -- A running goroutine that receives the events which complete a batch hands exactly that batch
  -- over, in the order of the channel, starts an empty one, and leaves the rest of the channel.
  pub run-receive_all :
      (x : E) (xs ys : List E) (b : Batcher E)
      → b.phase ≡ running
      → b.ch ≡ x ∷ (xs ++ ys)
      → length b.batch + length (x ∷ xs) ≡ b.size
      → run (receive_all (x ∷ xs)) b
        ≡ some (record b { ch = ys; batch = []; handed = b.handed ++ (b.batch ++ x ∷ xs) ∷ [] })
  unfolding run
  run-receive_all x [] ys b q c n =
      rw (step-receives b x ys q c) (ap some (on_event-full (record b { ch = ys }) x (omega arith)))
  run-receive_all x (y ∷ xs) ys b q c n =
      rw
        (
          step-receives b x (y ∷ (xs ++ ys)) q c,
          on_event-short (record b { ch = y ∷ (xs ++ ys) }) x (omega arith),
        )
        (run-receive_all y xs ys (record b { ch = y ∷ (xs ++ ys); batch = b.batch ++ x ∷ [] }) q
            refl (omega (arith, length-append b.batch (x ∷ [])))
          ∙ simp append_assoc)
