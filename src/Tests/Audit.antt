-- ===== src/Tests/Audit.antt =====
-- The audit package at concrete events.
use codesteward_audit_proxy.Base.{
  List, ◌>>=◌, ℕ, zero, suc, false, String, ◌≡◌, refl, ◌⊎◌, true, false, none, some, [], ◌∷◌, map,
  if◌then◌else◌, concat,
}
use codesteward_audit_proxy.Base.Bytes.{Bytes, codes, eq_bytes}
use codesteward_audit_proxy.Base.Int.{pos}
use codesteward_audit_proxy.Audit.Event.{AuditEvent, UnprocessedEvent, zero_audit_event}
use codesteward_audit_proxy.Audit.Batcher.{
  Action, ticks, drains, returns, Batcher, running, exited, adds, stops, receives, sees_done,
  new_batcher, step_in, run, Reach, here, next,
}
use codesteward_audit_proxy.Audit.Batcher.Accounting.{Inv}
use codesteward_audit_proxy.Audit.Batcher.Threshold.{receive_all, run-receive_all}
use codesteward_audit_proxy.Audit.Batcher.Invariant.{Reach-accounted}
use codesteward_audit_proxy.Audit.Batcher.Shutdown.{Drained, drain_turns, run-drain}
use codesteward_audit_proxy.Audit.Delivery.{run-delivers}
use codesteward_audit_proxy.Audit.Unprocessed.{new_unprocessed_batcher, run_unprocessed}
use codesteward_audit_proxy.Audit.Unprocessed.Agreement.{as_batchers, run_unprocessed-agrees}
use codesteward_audit_proxy.Audit.Outage.{Kept, flush_over, run-Kept}
use codesteward_audit_proxy.Audit.Scrubber.{Engine}
use codesteward_audit_proxy.Audit.Writer.{Driver, audit_query, audit_row, flush_batch, flush_all}
use codesteward_audit_proxy.Audit.Writer.Laws.{Accepts, AlwaysAccepts, flush_batch-whole}

abbrev pub event_of : String → AuditEvent
event_of s = record zero_audit_event { session_id = codes s; direction = codes "response" }

abbrev pub made : {E : Type 0} → Batcher E
made = record {
  size = 2;
  capacity = 20;
  ch = [];
  done = false;
  phase = running;
  batch = [];
  handed = [];
  accepted = [];
  dropped = [];
}

pub made_new : {E : Type 0} → new_batcher {E = E} 100 (pos 2) (pos 5) ≡ some made
unfolding new_batcher
made_new = refl

-- Three events added, one of them received, and Stop called.
abbrev busy : {E : Type 0} → E → E → E → Batcher E
busy x y z = record made { ch = y ∷ z ∷ []; done = true; batch = x ∷ []; accepted = x ∷ y ∷ z ∷ [] }

busy_reached : {E : Type 0} (x y z : E) → Reach made (busy x y z)
unfolding step_in
busy_reached x y z =
    next stops
      (next receives (next (adds z) (next (adds y) (next (adds x) here refl) refl) refl) refl) refl

abbrev pub yes : Driver
yes = record { prepare = λ q. true; append = λ rows r. true; send = λ rows. true }

pub yes_always : AlwaysAccepts yes audit_row
yes_always = record { prepares = λ q. refl; appends = λ rows r. refl; sends = λ rows. refl }

run-delivers_example :
    (d : Batcher AuditEvent) × (run
        (sees_done ∷ drain_turns (event_of "b" ∷ event_of "c" ∷ []))
        (busy (event_of "a") (event_of "b") (event_of "c"))
      ≡ some d)
    × (d.phase ≡ exited)
    × (flush_all (flush_batch yes (codes "audit")) [] d.handed
        ≡ map audit_row (event_of "a" ∷ event_of "b" ∷ event_of "c" ∷ []))
run-delivers_example =
    run-delivers 100 (pos 2) (pos 5) yes (codes "audit") made_new
      (busy_reached (event_of "a") (event_of "b") (event_of "c")) refl refl yes_always

abbrev numbered : Batcher ℕ
numbered = busy 1 2 3

busy_Inv : Inv numbered
busy_Inv = Reach-accounted 100 (pos 2) (pos 5) made_new (busy_reached 1 2 3)

Reach-accounted_example : Inv numbered
Reach-accounted_example = Reach-accounted 100 (pos 2) (pos 5) made_new (busy_reached 1 2 3)

run-drain_example :
    (d : Batcher ℕ) × (run (sees_done ∷ drain_turns (2 ∷ 3 ∷ [])) numbered ≡ some d)
    × Drained numbered d
run-drain_example = run-drain numbered refl refl busy_Inv

-- Two events added, and one of them received.
abbrev pub open_of : {E : Type 0} → E → E → Batcher E
open_of x y = record made { ch = y ∷ []; batch = x ∷ []; accepted = x ∷ y ∷ [] }

pub open_of_reached : {E : Type 0} (x y : E) → Reach made (open_of x y)
unfolding step_in
open_of_reached x y = next (adds y) (next receives (next (adds x) here refl) refl) refl

-- The database is down for the first flush.
abbrev down_once : ℕ → Driver
down_once zero = record { prepare = λ q. false; append = λ rows r. true; send = λ rows. true }
down_once (suc n) = yes

run-Kept_example :
    (d : Batcher AuditEvent) × (run
        (sees_done ∷ drain_turns (event_of "b" ∷ event_of "c" ∷ []))
        (busy (event_of "a") (event_of "b") (event_of "c"))
      ≡ some d)
    × (d.phase ≡ exited)
    × (concat d.handed ≡ event_of "a" ∷ event_of "b" ∷ event_of "c" ∷ [])
    × Kept down_once
        (codes "audit")
        0
        []
        d.handed
        (flush_over down_once (codes "audit") 0 [] d.handed)
run-Kept_example =
    run-Kept 100 (pos 2) (pos 5) down_once (codes "audit") made_new
      (busy_reached (event_of "a") (event_of "b") (event_of "c")) refl refl

run-receive_all_example :
    run {E = ℕ} (receive_all (2 ∷ [])) numbered
    ≡ some (record numbered { ch = 3 ∷ []; batch = []; handed = (1 ∷ 2 ∷ []) ∷ [] })
run-receive_all_example = run-receive_all 2 [] (3 ∷ []) numbered refl refl refl

flush_batch-whole_example :
    (Accepts yes audit_row (audit_query (codes "audit")) (event_of "a" ∷ event_of "b" ∷ [])
      × (flush_batch yes (codes "audit") [] (event_of "a" ∷ event_of "b" ∷ [])
          ≡ map audit_row (event_of "a" ∷ event_of "b" ∷ [])))
    ⊎ ((¬ Accepts yes audit_row (audit_query (codes "audit")) (event_of "a" ∷ event_of "b" ∷ []))
        × (flush_batch yes (codes "audit") [] (event_of "a" ∷ event_of "b" ∷ []) ≡ []))
flush_batch-whole_example =
    flush_batch-whole yes (codes "audit") [] (event_of "a") (event_of "b" ∷ [])

-- An engine of literal patterns, where `[` does not compile, and a text that is the pattern is
-- replaced whole.
abbrev pub literal : Engine
literal = record {
  Regexp = Bytes;
  compile = λ p. if eq_bytes p (codes "[") then none else some p;
  replace_all = λ p text by. if eq_bytes p text then by else text;
}

abbrev pub seen : UnprocessedEvent
seen = record {
  session_id = codes "s";
  turn_id = codes "t";
  ts = 1;
  agent = [];
  project = [];
  branch = [];
  user = [];
  team = [];
  direction = codes "response";
  method = codes "GET";
  path = codes "/";
  status_code = pos 404;
  content_type = [];
  raw = codes "x";
  error = [];
}

-- An event added and received, and a tick.
abbrev turns : List (Action UnprocessedEvent)
turns = adds seen ∷ receives ∷ adds seen ∷ ticks ∷ stops ∷ sees_done ∷ drains ∷ returns ∷ []

run_unprocessed-agrees_example :
    as_batchers (new_unprocessed_batcher 100 (pos 2) (pos 5) >>= run_unprocessed turns)
    ≡ (new_batcher 100 (pos 2) (pos 5) >>= run turns)
run_unprocessed-agrees_example = run_unprocessed-agrees 100 (pos 2) (pos 5) turns
