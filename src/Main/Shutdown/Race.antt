-- ===== src/Main/Shutdown/Race.antt =====
-- The race between the end of main and the goroutines of the batchers.
use codesteward_audit_proxy.Base.{
  ◌≡◌, refl, ◌∙◌, true, false, Option, none, some, List, [], ◌∷◌, ◌++◌, >>=-eq-some, map, concat,
}
use codesteward_audit_proxy.Audit.Event.{AuditEvent, UnprocessedEvent}
use codesteward_audit_proxy.Audit.Batcher.{Batcher, Action, running, sees_done, step, run}
use codesteward_audit_proxy.Audit.Batcher.Accounting.{Inv}
use codesteward_audit_proxy.Audit.Batcher.Shutdown.{drain_turns, run-drain}
use codesteward_audit_proxy.Audit.Stopping.{stop_open, closed-Inv}
use codesteward_audit_proxy.Main.Shutdown.{
  MainStep, stops_telemetry, closes_writer, shutdown_steps, Process, main_step, Turn, main_acts,
  batcher_acts, unprocessed_acts, take_turn, schedule, main_only, at_signal,
}

-- The schedule in which both goroutines drain and return between the stops and the end of main.
abbrev pub with_drains : Batcher AuditEvent → Batcher UnprocessedEvent → List Turn
with_drains b u =
    main_acts
    ∷ main_acts
    ∷ main_acts
    ∷ (map batcher_acts (sees_done ∷ drain_turns b.ch)
        ++ (map unprocessed_acts (sees_done ∷ drain_turns u.ch) ++ main_acts ∷ main_acts ∷ []))

-- The batcher's own turns, as long as main has not ended.
schedule-batcher :
    (as' : List (Action AuditEvent)) (rest : List Turn) (s : MainStep) (steps : List MainStep)
    (b d : Batcher AuditEvent) (u : Batcher UnprocessedEvent)
    (w : Option (List (List AuditEvent) × List (List UnprocessedEvent)))
    → run as' b ≡ some d
    → schedule
        (map batcher_acts as' ++ rest)
        (record { pending = s ∷ steps; batcher = b; unprocessed = u; written = w })
      ≡ schedule rest (record { pending = s ∷ steps; batcher = d; unprocessed = u; written = w })
unfolding schedule take_turn run
schedule-batcher [] rest s steps b d u w e = let same : some b ≡ some d = e in cc
schedule-batcher (a ∷ as') rest s steps b d u w e =
    let (c, one, more) = >>=-eq-some (step a b) (run as') e in
    rw one (schedule-batcher as' rest s steps c d u w more)

schedule-unprocessed :
    (as' : List (Action UnprocessedEvent)) (rest : List Turn) (s : MainStep) (steps : List MainStep)
    (b : Batcher AuditEvent) (u d : Batcher UnprocessedEvent)
    (w : Option (List (List AuditEvent) × List (List UnprocessedEvent)))
    → run as' u ≡ some d
    → schedule
        (map unprocessed_acts as' ++ rest)
        (record { pending = s ∷ steps; batcher = b; unprocessed = u; written = w })
      ≡ schedule rest (record { pending = s ∷ steps; batcher = b; unprocessed = d; written = w })
unfolding schedule take_turn run
schedule-unprocessed [] rest s steps b u d w e = let same : some u ≡ some d = e in cc
schedule-unprocessed (a ∷ as') rest s steps b u d w e =
    let (c, one, more) = >>=-eq-some (step a u) (run as') e in
    rw one (schedule-unprocessed as' rest s steps b c d w more)

abbrev stopped {ℓ} : {E : Type ℓ} → Batcher E → Batcher E
stopped b = record b { done = true }

-- Main's own steps, as far as the stops.
schedule-stops :
    (rest : List Turn) (b : Batcher AuditEvent) (u : Batcher UnprocessedEvent)
    (w : Option (List (List AuditEvent) × List (List UnprocessedEvent)))
    → b.done ≡ false
    → u.done ≡ false
    → schedule
        (main_acts ∷ main_acts ∷ main_acts ∷ rest)
        (record { pending = shutdown_steps; batcher = b; unprocessed = u; written = w })
      ≡ schedule rest (record {
        pending = stops_telemetry ∷ closes_writer ∷ [];
        batcher = stopped b;
        unprocessed = stopped u;
        written = w;
      })
unfolding schedule take_turn main_step
schedule-stops rest b u w not_stopped unprocessed_not_stopped =
    rw (stop_open b not_stopped) (rw (stop_open u unprocessed_not_stopped))

-- Both goroutines are in their select, and neither batcher is stopped.
pub record IsServing (b : Batcher AuditEvent) (u : Batcher UnprocessedEvent) : Type 0 where
  pub batcher_Inv : Inv b
  pub unprocessed_Inv : Inv u
  pub active : b.phase ≡ running
  pub unprocessed_active : u.phase ≡ running
  pub not_stopped : b.done ≡ false
  pub unprocessed_not_stopped : u.done ≡ false

-- The process ends, and these batches have been written.
abbrev pub EndsWith :
    List Turn → Process → List (List AuditEvent) → List (List UnprocessedEvent) → Type 0
EndsWith ts p hs us =
    (q : Process) × (schedule ts p ≡ some q) × (q.pending ≡ []) × (q.written ≡ some (hs, us))

schedule-end :
    (b : Batcher AuditEvent) (u : Batcher UnprocessedEvent)
    → schedule (main_acts ∷ main_acts ∷ []) (record {
      pending = stops_telemetry ∷ closes_writer ∷ [];
      batcher = b;
      unprocessed = u;
      written = none;
    })
      ≡ some (record {
        pending = [];
        batcher = b;
        unprocessed = u;
        written = some (b.handed, u.handed);
      })
unfolding schedule take_turn main_step
schedule-end b u = refl

-- Main does not wait for the goroutines that Stop has signalled. From a signal at which both batchers
-- keep their invariant, run and are not stopped, the process may end with exactly those batches
-- written that were handed over before the signal; and it may end with all accepted events written.
-- The scheduler decides.
pub shutdown-EndsWith :
    (b : Batcher AuditEvent) (u : Batcher UnprocessedEvent)
    → IsServing b u
    → EndsWith main_only (at_signal b u) b.handed u.handed
      × ((hs : List (List AuditEvent)) × (us : List (List UnprocessedEvent)) × EndsWith
            (with_drains b u)
            (at_signal b u)
            hs
            us
          × (concat hs ≡ b.accepted)
          × (concat us ≡ u.accepted))
shutdown-EndsWith b u s =
    let (d, runs, done) = run-drain (stopped b) s.active refl (closed-Inv b s.batcher_Inv) in
    let (e, unprocessed_runs, unprocessed_done) =
      run-drain (stopped u) s.unprocessed_active refl (closed-Inv u s.unprocessed_Inv) in
    (
      (
        record {
          pending = [];
          batcher = stopped b;
          unprocessed = stopped u;
          written = some (b.handed, u.handed);
        },
        schedule-stops (main_acts ∷ main_acts ∷ []) b u none s.not_stopped s.unprocessed_not_stopped
            ∙ schedule-end (stopped b) (stopped u),
        refl,
        refl,
      ),
      (
        d.handed,
        e.handed,
        (
          record {
            pending = [];
            batcher = d;
            unprocessed = e;
            written = some (d.handed, e.handed);
          },
          schedule-stops _ b u none s.not_stopped s.unprocessed_not_stopped
              ∙ schedule-batcher (sees_done ∷ drain_turns b.ch) _ stops_telemetry
                  (closes_writer ∷ []) (stopped b) d (stopped u) none runs
              ∙ schedule-unprocessed (sees_done ∷ drain_turns u.ch) _ stops_telemetry
                  (closes_writer ∷ []) d (stopped u) e none unprocessed_runs
              ∙ schedule-end d e,
          refl,
          refl,
        ),
        done.all_handed,
        unprocessed_done.all_handed,
      ),
    )
