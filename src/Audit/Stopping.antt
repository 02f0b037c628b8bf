-- ===== src/Audit/Stopping.antt =====
-- Adding to a batcher that has room, and stopping it: what is handed over and stored.
use codesteward_audit_proxy.Base.{
  ℕ, ◌+◌, ◌≤◌, ◌<◌, ◌≡◌, refl, sym, ap, ◌∙◌, subst, true, false, Option, some, List, [], ◌∷◌, ◌++◌,
  ◌>>=◌, map, arith, ltb, append-nil, append_assoc, length, length-append, concat,
}
use codesteward_audit_proxy.Base.Bytes.{Bytes}
use codesteward_audit_proxy.Base.Int.{ℤ}
use codesteward_audit_proxy.Audit.Batcher.{
  running, Batcher, adds, sees_done, new_batcher, add, stop, step, step_in, run, Reach, next,
}
use codesteward_audit_proxy.Audit.Batcher.Accounting.{Inv}
use codesteward_audit_proxy.Audit.Batcher.Invariant.{Reach-accounted}
use codesteward_audit_proxy.Audit.Batcher.Shutdown.{drain_turns, run-drain}
use codesteward_audit_proxy.Audit.Writer.{Driver, Row, write_rows, store, flush_all}
use codesteward_audit_proxy.Audit.Writer.Laws.{AlwaysAccepts, flush_all-write_rows}

module _ {ℓ} {E : Type ℓ} where
  unfoldable pub add_all : List E → Batcher E → Batcher E
  unfolding add
  add_all [] b = b
  add_all (e ∷ es) b = add_all es (add e b)

  -- Stop, and then the goroutine to its return: the batches it has handed over.
  unfoldable pub shut_down : Batcher E → Option (List (List E))
  unfolding stop run
  shut_down b = stop b >>= λ c. run (sees_done ∷ drain_turns c.ch) c >>= λ d. some d.handed

  step-adds : (e : E) (b : Batcher E) → step (adds e) b ≡ some (add e b)
  unfolding step_in
  step-adds e b = refl

  pub Reach-add_all : (es : List E) (b c : Batcher E) → Reach b c → Reach b (add_all es c)
  unfolding add_all
  Reach-add_all [] b c r = r
  Reach-add_all (e ∷ es) b c r = Reach-add_all es b (add e c) (next (adds e) r (step-adds e c))

  -- What adding with room for all changes.
  pub record Added (es : List E) (b c : Batcher E) : Type ℓ where
    pub accepted : c.accepted ≡ b.accepted ++ es
    pub same_phase : c.phase ≡ b.phase
    pub same_done : c.done ≡ b.done

  add_room :
      (e : E) (b : Batcher E)
      → length b.ch < b.capacity
      → add e b ≡ record b { ch = b.ch ++ e ∷ []; accepted = b.accepted ++ e ∷ [] }
  unfolding add
  add_room e b room = rw (below (length b.ch) b.capacity room)
    where
      below : (m n : ℕ) → m < n → ltb m n ≡ true
      below m n h = ground arith

  pub add_all-Added :
      (es : List E) (b : Batcher E)
      → length b.ch + length es ≤ b.capacity
      → Added es b (add_all es b)
  unfolding add_all
  add_all-Added [] b room = record {
    accepted = sym (append-nil b.accepted);
    same_phase = refl;
    same_done = refl;
  }
  add_all-Added (e ∷ es) b room =
      subst (λ c. Added (e ∷ es) b (add_all es c)) (sym (add_room e b (omega arith)))
        (behind (add_all-Added es pushed (omega (arith, length-append b.ch (e ∷ [])))))
    where
      pushed : Batcher E
      pushed = record b { ch = b.ch ++ e ∷ []; accepted = b.accepted ++ e ∷ [] }

      behind : Added es pushed (add_all es pushed) → Added (e ∷ es) b (add_all es pushed)
      behind a = record {
        accepted = a.accepted ∙ append_assoc b.accepted (e ∷ []) es;
        same_phase = a.same_phase;
        same_done = a.same_done;
      }

  pub stop_open : (c : Batcher E) → c.done ≡ false → stop c ≡ some (record c { done = true })
  unfolding stop
  stop_open c o = rw o

  pub closed-Inv : (b : Batcher E) → Inv b → Inv (record b { done = true })
  closed-Inv b v = record {
    accounted = v.accounted;
    room = v.room;
    small = v.small;
    nonempty = v.nonempty;
    finished = v.finished;
  }

  -- A batcher that is shut down hands over everything that it has accepted.
  pub shut_down-accepted :
      (b : Batcher E)
      → Inv b
      → b.phase ≡ running
      → b.done ≡ false
      → (hs : List (List E)) × (shut_down b ≡ some hs) × (concat hs ≡ b.accepted)
  unfolding shut_down
  shut_down-accepted b v active open_yet =
      let (d, runs, done) = run-drain (record b { done = true }) active refl (closed-Inv b v) in
      (d.handed, rw (stop_open b open_yet) (rw runs), done.all_handed)

  -- What is added with room for it is stored behind what was accepted before, once the batcher is
  -- shut down.
  pub add_all-stored :
      (most : ℕ) (size interval : ℤ) {made : Batcher E} (driver : Driver) (row : E → Row)
      (query : Bytes) (b : Batcher E) (es : List E)
      → new_batcher most size interval ≡ some made
      → Reach made b
      → b.phase ≡ running
      → b.done ≡ false
      → length b.ch + length es ≤ b.capacity
      → AlwaysAccepts driver row
      → (hs : List (List E)) × (shut_down (add_all es b) ≡ some hs)
        × (flush_all (λ t fs. store t (write_rows driver query row fs)) [] hs
            ≡ map row (b.accepted ++ es))
  add_all-stored most size interval {made} driver row query b es start r active open_yet room
        accepts =
      let a = add_all-Added es b room in
      let v = Reach-accounted most size interval start (Reach-add_all es made b r) in
      let (hs, shut, all) =
        shut_down-accepted (add_all es b) v (a.same_phase ∙ active) (a.same_done ∙ open_yet) in
      (
        hs,
        shut,
        flush_all-write_rows driver row query hs [] accepts ∙ ap (map row) (all ∙ a.accepted),
      )
