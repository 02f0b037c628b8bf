-- ===== src/Audit/Batcher/Accounting.antt =====
-- What each part of the goroutine, and Add, does to the history of a batcher.
use codesteward_audit_proxy.Base.{
  ◌-◌, ◌≤◌, ◌≡◌, refl, ap, inl, inr, false, Option, none, some, List, [], ◌∷◌, ◌++◌, append-nil,
  append_assoc, arith, ltb, leb, Bool-cases, length, is_nil, concat, length-append, concat-append,
  All, All-append,
}
use codesteward_audit_proxy.Audit.Batcher.{
  running, draining, exited, Batcher, add, flush, flush_rest, on_event, receive, drain_one, leave,
}

module _ {ℓ} {E : Type ℓ} where
  -- What has left the channel or waits in it, in order.
  abbrev history : Batcher E → List E
  history b = concat b.handed ++ (b.batch ++ b.ch)

  pub record Inv (b : Batcher E) : Type ℓ where
    pub accounted : history b ≡ b.accepted
    pub room : length b.ch ≤ b.capacity
    pub small : b.phase ≡ running → length b.batch ≤ b.size - 1
    pub nonempty : All (λ xs. is_nil xs ≡ false) b.handed
    pub finished : b.phase ≡ exited → b.batch ≡ []

  -- Regrouping of a history.
  grow : (hs bs cs acc xs : List E) → hs ++ (bs ++ cs) ≡ acc → hs ++ (bs ++ (cs ++ xs)) ≡ acc ++ xs
  grow hs bs cs acc xs h = rw (← h) (simp append_assoc)

  shift :
      (hs bs cs acc : List E) (e : E)
      → hs ++ (bs ++ (e ∷ cs)) ≡ acc
      → hs ++ ((bs ++ e ∷ []) ++ cs) ≡ acc
  shift hs bs cs acc e h = simp append_assoc h

  hand_over :
      (hs : List (List E)) (xs cs acc : List E)
      → concat hs ++ (xs ++ cs) ≡ acc
      → concat (hs ++ xs ∷ []) ++ ([] ++ cs) ≡ acc
  hand_over hs xs cs acc h = simp (concat-append, append-nil, append_assoc) h

  is_nil-concat : (xs : List E) (e : E) → is_nil (xs ++ e ∷ []) ≡ false
  is_nil-concat [] e = refl
  is_nil-concat (x ∷ xs) e = refl

  pub add-Inv : (e : E) (b : Batcher E) → Inv b → Inv (add e b)
  unfolding add
  add-Inv e b v = elim (Bool-cases (ltb (length b.ch) b.capacity)) [
    | inr full ↦ rw full (record {
      accounted = v.accounted;
      room = v.room;
      small = v.small;
      nonempty = v.nonempty;
      finished = v.finished;
    })
    | inl free ↦ rw free (record {
      accounted = grow (concat b.handed) b.batch b.ch b.accepted (e ∷ []) v.accounted;
      room = ground (arith, length-append b.ch (e ∷ []));
      small = v.small;
      nonempty = v.nonempty;
      finished = v.finished;
    })
  ]

  -- The batch is handed over: it has an event, and `acc` is what the history then makes.
  flush-Inv : (b : Batcher E) → Inv b → is_nil b.batch ≡ false → Inv (flush b)
  flush-Inv b v full = record {
    accounted = hand_over b.handed b.batch b.ch b.accepted v.accounted;
    room = v.room;
    small = λ _. omega arith;
    nonempty = All-append _ b.handed (b.batch ∷ []) v.nonempty (full, tt);
    finished = λ _. refl;
  }

  pub flush_rest-Inv : (b : Batcher E) (xs : List E) → b.batch ≡ xs → Inv b → Inv (flush_rest b xs)
  flush_rest-Inv b [] e v = v
  flush_rest-Inv b (x ∷ xs) e v = flush-Inv b v (ap is_nil e)

  pub on_event-Inv :
      (e : E) (b : Batcher E)
      → b.phase ≡ running
      → Inv (record b { batch = b.batch ++ e ∷ []; phase = draining })
      → Inv (on_event e b)
  unfolding on_event
  on_event-Inv e b r v = elim (Bool-cases (leb b.size (length (b.batch ++ e ∷ [])))) [
    | inl full ↦ rw full (record {
      accounted = hand_over b.handed (b.batch ++ e ∷ []) b.ch b.accepted v.accounted;
      room = v.room;
      small = λ _. omega arith;
      nonempty =
          All-append _ b.handed ((b.batch ++ e ∷ []) ∷ []) v.nonempty (is_nil-concat b.batch e, tt);
      finished = λ _. refl;
    })
    | inr short ↦ rw short (record {
      accounted = v.accounted;
      room = v.room;
      small = λ _. ground arith;
      nonempty = v.nonempty;
      finished = λ x. cc;
    })
  ]

  -- The invariant behind an action, if the action is enabled.
  abbrev pub InvAfter : Option (Batcher E) → Type ℓ
  InvAfter none = Unit
  InvAfter (some d) = Inv d

  -- The event at the channel's head moves to the end of the batch.
  taken-Inv :
      (b : Batcher E) (e : E) (es : List E)
      → b.ch ≡ e ∷ es
      → Inv b
      → Inv (record b { ch = es; batch = b.batch ++ e ∷ []; phase = draining })
  taken-Inv b e es q v = record {
    accounted = shift (concat b.handed) b.batch es b.accepted e (rw q at v.accounted);
    room = omega (arith, ap length q, v.room);
    small = λ x. cc;
    nonempty = v.nonempty;
    finished = λ x. cc;
  }

  pub receive-Inv :
      (b : Batcher E) (es : List E)
      → b.ch ≡ es
      → b.phase ≡ running
      → Inv b
      → InvAfter (receive es b)
  unfolding receive
  receive-Inv b [] q r v = tt
  receive-Inv b (e ∷ es) q r v = on_event-Inv e (record b { ch = es }) r (taken-Inv b e es q v)

  pub drain_one-Inv :
      (b : Batcher E) (es : List E)
      → b.ch ≡ es
      → b.phase ≡ draining
      → Inv b
      → InvAfter (drain_one es b)
  unfolding drain_one
  drain_one-Inv b [] q r v = tt
  drain_one-Inv b (e ∷ es) q r v = record {
    accounted = moved.accounted;
    room = moved.room;
    small = λ x. cc;
    nonempty = v.nonempty;
    finished = λ x. cc;
  }
    where
      moved : Inv (record b { ch = es; batch = b.batch ++ e ∷ []; phase = draining })
      moved = taken-Inv b e es q v

  pub flush_rest_batch : (b : Batcher E) (xs : List E) → b.batch ≡ xs → (flush_rest b xs).batch ≡ []
  flush_rest_batch b [] e = e
  flush_rest_batch b (x ∷ xs) e = refl

  pub leave-Inv : (b : Batcher E) (es : List E) → Inv b → InvAfter (leave es b)
  unfolding leave
  leave-Inv b (e ∷ es) v = tt
  leave-Inv b [] v = record {
    accounted = left.accounted;
    room = left.room;
    small = λ x. cc;
    nonempty = left.nonempty;
    finished = λ _. flush_rest_batch b b.batch refl;
  }
    where
      left : Inv (flush_rest b b.batch)
      left = flush_rest-Inv b b.batch refl v
