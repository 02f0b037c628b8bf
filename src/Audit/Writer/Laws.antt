-- ===== src/Audit/Writer/Laws.antt =====
-- What a write leaves in the database.
use codesteward_audit_proxy.Base.{
  ◌≡◌, refl, sym, ap, ◌∙◌, ◌⊎◌, inl, inr, true, none, some, List, [], ◌∷◌, ◌++◌, map, append-nil,
  append_assoc, map-append, Bool-cases, concat,
}
use codesteward_audit_proxy.Base.Bytes.{Bytes}
use codesteward_audit_proxy.Audit.Event.{AuditEvent}
use codesteward_audit_proxy.Audit.Writer.{
  Row, Driver, Outcome, nothing_to_write, failed, inserted, audit_query, audit_row, append_rows,
  send_rows, write_rows, write_batch, store, flush_batch, flush_all,
}

module _ {ℓ} {E : Type ℓ} (driver : Driver) (row : E → Row) where
  -- Every row is taken behind the rows before it.
  abbrev pub AllTaken : List Row → List E → Type 0
  AllTaken rows [] = Unit
  AllTaken rows (e ∷ es) = (driver.append rows (row e) ≡ true) × AllTaken (rows ++ row e ∷ []) es

  -- Either all rows are taken, in order, or some row is refused.
  append_rows-cases :
      (rows : List Row) (es : List E)
      → (AllTaken rows es × (append_rows driver row rows es ≡ some (rows ++ map row es)))
        ⊎ ((¬ AllTaken rows es) × (append_rows driver row rows es ≡ none))
  unfolding append_rows
  append_rows-cases rows [] = inl (tt, rw append-nil)
  append_rows-cases rows (e ∷ es) = elim (Bool-cases (driver.append rows (row e))) [
    | inr refused ↦ inr (λ t. cc (t.0), rw refused)
    | inl taken ↦ elim (append_rows-cases (rows ++ row e ∷ []) es) [
      | inl (all, eq) ↦ inl ((taken, all), rw (taken, eq) (simp append_assoc))
      | inr (not_all, eq) ↦ inr (λ t. not_all t.1, rw (taken, eq))
    ]
  ]

  -- What the driver has to accept for the whole insert.
  pub record Accepts (query : Bytes) (es : List E) : Type 0 where
    pub prepared : driver.prepare query ≡ true
    pub taken : AllTaken [] es
    pub sent : driver.send (map row es) ≡ true

  abbrev pub IsFailure : Outcome → Type 0
  IsFailure (failed e) = Unit
  IsFailure _ = ⊥

  -- The outcome of a write that has events: the rows of all events, in order, if the driver accepts
  -- every call, and otherwise a failure.
  write_rows-cases :
      (query : Bytes) (e : E) (es : List E)
      → (Accepts query (e ∷ es)
          × (write_rows driver query row (e ∷ es) ≡ inserted query (map row (e ∷ es))))
        ⊎ ((¬ Accepts query (e ∷ es)) × IsFailure (write_rows driver query row (e ∷ es)))
  unfolding write_rows send_rows
  write_rows-cases query e es = elim (Bool-cases (driver.prepare query)) [
    | inr refused ↦ inr (λ a. cc (a.prepared), rw refused tt)
    | inl prepared ↦ elim (append_rows-cases [] (e ∷ es)) [
      | inr (not_all, eq) ↦ inr (λ a. not_all a.taken, rw (prepared, eq, send_rows) tt)
      | inl (all, eq) ↦ elim (Bool-cases (driver.send (map row (e ∷ es)))) [
        | inl sent ↦ inl (
          record { prepared = prepared; taken = all; sent = sent },
          rw (prepared, eq, send_rows) (rw sent),
        )
        | inr unsent ↦ inr (λ a. cc (a.sent), rw (prepared, eq, send_rows) (rw unsent tt))
      ]
    ]
  ]

  -- A driver that refuses nothing.
  pub record AlwaysAccepts : Type 0 where
    pub prepares : (query : Bytes) → driver.prepare query ≡ true
    pub appends : (rows : List Row) (r : Row) → driver.append rows r ≡ true
    pub sends : (rows : List Row) → driver.send rows ≡ true

  AlwaysAccepts-AllTaken : AlwaysAccepts → (rows : List Row) (es : List E) → AllTaken rows es
  AlwaysAccepts-AllTaken a rows [] = tt
  AlwaysAccepts-AllTaken a rows (e ∷ es) =
      (a.appends rows (row e), AlwaysAccepts-AllTaken a (rows ++ row e ∷ []) es)

  store-write_rows :
      (query : Bytes) (table : List Row) (es : List E)
      → AlwaysAccepts
      → store table (write_rows driver query row es) ≡ table ++ map row es
  store-write_rows query table [] a = unfold write_rows in sym (append-nil table)
  store-write_rows query table (e ∷ es) a = elim (write_rows-cases query e es) [
    | inl (accepts, eq) ↦ rw eq
    | inr (refuses, failure) ↦ absurd (
        refuses (record {
          prepared = a.prepares query;
          taken = AlwaysAccepts-AllTaken a [] (e ∷ es);
          sent = a.sends (map row (e ∷ es));
        }))
  ]

  pub flush_all-write_rows :
      (query : Bytes) (batches : List (List E)) (table : List Row)
      → AlwaysAccepts
      → flush_all (λ t es. store t (write_rows driver query row es)) table batches
        ≡ table ++ map row (concat batches)
  unfolding flush_all
  flush_all-write_rows query [] table a = sym (append-nil table)
  flush_all-write_rows query (es ∷ batches) table a =
      ap (λ t. flush_all (λ u fs. store u (write_rows driver query row fs)) t batches)
        (store-write_rows query table es a)
      ∙ flush_all-write_rows query batches (table ++ map row es) a
      ∙ simp (append_assoc, map-append)

-- The table of audit events after a flush: the rows of all events of the batch, in order, behind
-- those before if the driver accepts every call, and otherwise the table as it was. So a batch is
-- stored whole or not at all.
pub flush_batch-whole :
    (driver : Driver) (db : Bytes) (table : List Row) (e : AuditEvent) (es : List AuditEvent)
    → (Accepts driver audit_row (audit_query db) (e ∷ es)
        × (flush_batch driver db table (e ∷ es) ≡ table ++ map audit_row (e ∷ es)))
      ⊎ ((¬ Accepts driver audit_row (audit_query db) (e ∷ es))
          × (flush_batch driver db table (e ∷ es) ≡ table))
unfolding flush_batch write_batch
flush_batch-whole driver db table e es =
    elim (write_rows-cases driver audit_row (audit_query db) e es) [
      | inl (accepts, eq) ↦ inl (accepts, ap (store table) eq)
      | inr (refuses, failure) ↦
          inr (refuses, unstored (write_rows driver (audit_query db) audit_row (e ∷ es)) failure)
    ]
  where
    unstored : (o : Outcome) → IsFailure driver audit_row o → store table o ≡ table
    unstored (failed x) h = refl
    unstored nothing_to_write h = refl
    unstored (inserted q rows) h = absurd h

pub flush_all-batches :
    (driver : Driver) (db : Bytes) (batches : List (List AuditEvent))
    → AlwaysAccepts driver audit_row
    → flush_all (flush_batch driver db) [] batches ≡ map audit_row (concat batches)
unfolding flush_batch write_batch
flush_all-batches driver db batches a =
    flush_all-write_rows driver audit_row (audit_query db) batches [] a
