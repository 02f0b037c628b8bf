-- ===== src/Audit/Outage.antt =====
-- A shutdown with a database that comes and goes: the driver may behave differently at every flush of
-- internal/audit/batcher.go. A batch that cannot be written is discarded and not tried again.
use codesteward_audit_proxy.Base.{
  ℕ, suc, ◌≡◌, refl, inl, inr, true, some, List, [], ◌∷◌, ◌++◌, map, concat,
}
use codesteward_audit_proxy.Base.Bytes.{Bytes}
use codesteward_audit_proxy.Base.Int.{ℤ}
use codesteward_audit_proxy.Audit.Event.{AuditEvent}
use codesteward_audit_proxy.Audit.Batcher.{
  Batcher, running, exited, sees_done, new_batcher, run, Reach,
}
use codesteward_audit_proxy.Audit.Batcher.Invariant.{Reach-accounted}
use codesteward_audit_proxy.Audit.Batcher.Shutdown.{drain_turns, run-drain}
use codesteward_audit_proxy.Audit.Writer.{
  Driver, Row, audit_query, audit_row, write_batch, write_rows, flush_batch,
}
use codesteward_audit_proxy.Audit.Writer.Laws.{Accepts, flush_batch-whole}

-- The flushes in their order, the driver as it is at each of them.
unfoldable pub flush_over : (ℕ → Driver) → Bytes → ℕ → List Row → List (List AuditEvent) → List Row
unfolding flush_batch
flush_over drivers db n table [] = table
flush_over drivers db n table (batch ∷ batches) =
    flush_over drivers db (suc n) (flush_batch (drivers n) db table batch) batches

-- What becomes of each batch: all of its rows are stored behind those before, or none.
pub data Kept (drivers : ℕ → Driver) (db : Bytes)
    : ℕ → List Row → List (List AuditEvent) → List Row → Type 0 where
  all_done : {n : ℕ} {table : List Row} → Kept drivers db n table [] table
  blank :
      {n : ℕ} {table after : List Row} {batches : List (List AuditEvent)}
      → Kept drivers db (suc n) table batches after
      → Kept drivers db n table ([] ∷ batches) after
  stored :
      {n : ℕ} {table after : List Row} {batches : List (List AuditEvent)} {e : AuditEvent}
      {es : List AuditEvent}
      → Accepts (drivers n) audit_row (audit_query db) (e ∷ es)
      → Kept drivers db (suc n) (table ++ map audit_row (e ∷ es)) batches after
      → Kept drivers db n table ((e ∷ es) ∷ batches) after
  lost :
      {n : ℕ} {table after : List Row} {batches : List (List AuditEvent)} {e : AuditEvent}
      {es : List AuditEvent}
      → ¬ Accepts (drivers n) audit_row (audit_query db) (e ∷ es)
      → Kept drivers db (suc n) table batches after
      → Kept drivers db n table ((e ∷ es) ∷ batches) after

flush_batch-blank :
    (driver : Driver) (db : Bytes) (table : List Row) → flush_batch driver db table [] ≡ table
unfolding flush_batch write_batch write_rows
flush_batch-blank driver db table = refl

flush_over-Kept :
    (drivers : ℕ → Driver) (db : Bytes) (batches : List (List AuditEvent)) (n : ℕ)
    (table : List Row)
    → Kept drivers db n table batches (flush_over drivers db n table batches)
unfolding flush_over
flush_over-Kept drivers db [] n table = all_done
flush_over-Kept drivers db ([] ∷ batches) n table =
    rw (flush_batch-blank (drivers n) db table)
      (blank (flush_over-Kept drivers db batches (suc n) table))
flush_over-Kept drivers db ((e ∷ es) ∷ batches) n table =
    elim (flush_batch-whole (drivers n) db table e es) [
      | inl (accepts, whole) ↦ rw whole (
          stored accepts
            (flush_over-Kept drivers db batches (suc n) (table ++ map audit_row (e ∷ es))))
      | inr (refuses, same) ↦
          rw same (lost refuses (flush_over-Kept drivers db batches (suc n) table))
    ]

-- A batcher that NewBatcher made, in any state that the threads may have brought it to, with Stop
-- called and its goroutine still in its select, can drain and return whatever the driver does and
-- however that changes from flush to flush. Its batches are then exactly the accepted events, in
-- order, and the table has, in order, the rows of each batch that the driver accepted when it was
-- flushed, whole, and nothing of the others. No Add comes in between.
pub run-Kept :
    (most : ℕ) (size interval : ℤ) {b c : Batcher AuditEvent} (drivers : ℕ → Driver) (db : Bytes)
    → new_batcher most size interval ≡ some b
    → Reach b c
    → c.phase ≡ running
    → c.done ≡ true
    → (d : Batcher AuditEvent) × (run (sees_done ∷ drain_turns c.ch) c ≡ some d)
      × (d.phase ≡ exited)
      × (concat d.handed ≡ c.accepted)
      × Kept drivers db 0 [] d.handed (flush_over drivers db 0 [] d.handed)
run-Kept most size interval {b} {c} drivers db start reach active closed =
    let (d, runs, done) =
      run-drain c active closed (Reach-accounted most size interval start reach) in
    (d, runs, done.returned, done.all_handed, flush_over-Kept drivers db d.handed 0 [])
