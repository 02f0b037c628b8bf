-- ===== src/Audit/Delivery.antt =====
-- The batcher and the writer together: what a clean shutdown leaves in the database.
use codesteward_audit_proxy.Base.{ℕ, ◌≡◌, ap, ◌∙◌, true, some, [], ◌∷◌, map}
use codesteward_audit_proxy.Base.Bytes.{Bytes}
use codesteward_audit_proxy.Base.Int.{ℤ}
use codesteward_audit_proxy.Audit.Event.{AuditEvent}
use codesteward_audit_proxy.Audit.Batcher.{
  Batcher, running, exited, sees_done, new_batcher, run, Reach,
}
use codesteward_audit_proxy.Audit.Batcher.Invariant.{Reach-accounted}
use codesteward_audit_proxy.Audit.Batcher.Shutdown.{drain_turns, run-drain}
use codesteward_audit_proxy.Audit.Writer.{Driver, audit_row, flush_batch, flush_all}
use codesteward_audit_proxy.Audit.Writer.Laws.{AlwaysAccepts, flush_all-batches}

-- A batcher that NewBatcher made, in any state that the threads may have brought it to, with Stop
-- called and its goroutine still in its select: the goroutine can drain and return, and if the
-- driver accepts all then the table has the rows of exactly the accepted events, in the order of their
-- acceptance. No Add comes in between.
pub run-delivers :
    (most : ℕ) (size interval : ℤ) {b c : Batcher AuditEvent} (driver : Driver) (db : Bytes)
    → new_batcher most size interval ≡ some b
    → Reach b c
    → c.phase ≡ running
    → c.done ≡ true
    → AlwaysAccepts driver audit_row
    → (d : Batcher AuditEvent) × (run (sees_done ∷ drain_turns c.ch) c ≡ some d)
      × (d.phase ≡ exited)
      × (flush_all (flush_batch driver db) [] d.handed ≡ map audit_row c.accepted)
run-delivers most size interval {b} {c} driver db start reach active closed accepts =
    let (d, runs, done) =
      run-drain c active closed (Reach-accounted most size interval start reach) in
    (
      d,
      runs,
      done.returned,
      flush_all-batches driver db d.handed accepts ∙ ap (map audit_row) done.all_handed,
    )
