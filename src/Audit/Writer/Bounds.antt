-- ===== src/Audit/Writer/Bounds.antt =====
-- The cells of the rows against the widths of their columns.
use codesteward_audit_proxy.Base.{
  ℕ, ◌+◌, ◌*◌, ◌/◌, ◌≤◌, ltb, Bool-cases, inl, inr, subst, ◌%◌, ◌^◌, ◌<◌, ◌≡◌, refl, String, Option,
  none, some, List, [], ◌∷◌, Bool, true, false, arith, if◌then◌else◌, All,
}
use codesteward_audit_proxy.Base.Bytes.{Bytes, codes, eq_bytes}
use codesteward_audit_proxy.Base.Int.{ℤ, pos, negsuc, to_unsigned}
use codesteward_audit_proxy.Audit.Event.{AuditEvent, UnprocessedEvent}
use codesteward_audit_proxy.Audit.Writer.{
  Cell, Row, uint8, uint16, uint32, audit_columns, audit_row, unprocessed_row,
}
use codesteward_audit_proxy.Audit.Writer.Columns.{column_names}

-- A number lies in the range of its type.
abbrev pub FitsCell : Cell → Type 0
FitsCell (uint8 n) = n < 2 ^ 8
FitsCell (uint16 n) = n < 2 ^ 16
FitsCell (uint32 n) = n < 2 ^ 32
FitsCell _ = Unit

to_unsigned_32 : (z : ℤ) → to_unsigned 32 z < 2 ^ 32
unfolding to_unsigned
to_unsigned_32 (pos n) = omega arith
to_unsigned_32 (negsuc n) = omega arith

to_unsigned_16 : (z : ℤ) → to_unsigned 16 z < 2 ^ 16
unfolding to_unsigned
to_unsigned_16 (pos n) = omega arith
to_unsigned_16 (negsuc n) = omega arith

flag_fits : (b : Bool) → (if b then 1 else 0) < 2 ^ 8
flag_fits true = omega arith
flag_fits false = omega arith

-- What a count becomes in a column of 32 bits.
pub data Counts : ℤ → ℕ → Type 0 where
  exact : {n : ℕ} → n < 2 ^ 32 → Counts (pos n) n
  reduced : {n m : ℕ} → 2 ^ 32 ≤ n → n ≡ m + n / 2 ^ 32 * 2 ^ 32 → Counts (pos n) m
  negative : {n m : ℕ} → m + n % 2 ^ 32 + 1 ≡ 2 ^ 32 → Counts (negsuc n) m

to_unsigned-Counts : (z : ℤ) → Counts z (to_unsigned 32 z)
unfolding to_unsigned
to_unsigned-Counts (negsuc n) = negative (omega arith)
to_unsigned-Counts (pos n) = elim (Bool-cases (ltb n (2 ^ 32))) [
  | inl small ↦ subst (Counts (pos n)) (kept n (below n small)) (exact (below n small))
  | inr large ↦ reduced (ground arith) (omega arith)
]
  where
    below : (k : ℕ) → ltb k (2 ^ 32) ≡ true → k < 2 ^ 32
    below k h = ground arith

    kept : (k : ℕ) → k < 2 ^ 32 → k ≡ k % 2 ^ 32
    kept k h = omega arith

audit_row_fits : (e : AuditEvent) → All FitsCell (audit_row e)
unfolding audit_row
audit_row_fits e = omega (
  arith,
  flag_fits e.request_captured,
  to_unsigned_32 e.input_tokens,
  to_unsigned_32 e.output_tokens,
  to_unsigned_32 e.cache_read_tokens,
  to_unsigned_32 e.cache_write_tokens,
)

unprocessed_row_fits : (u : UnprocessedEvent) → All FitsCell (unprocessed_row u)
unfolding unprocessed_row
unprocessed_row_fits u = omega (arith, to_unsigned_16 u.status_code)

-- The cell of a row under the column of the name.
abbrev pub cell_under : Bytes → List Bytes → Row → Option Cell
cell_under name [] xs = none
cell_under name (n ∷ ns) [] = none
cell_under name (n ∷ ns) (x ∷ xs) = if eq_bytes n name then some x else cell_under name ns xs

-- The row has a number of 32 bits under the column, which stands for the count.
pub record StoresCount (column : String) (z : ℤ) (row : Row) : Type 0 where
  pub stored : ℕ
  pub here : cell_under (codes column) (column_names audit_columns) row ≡ some (uint32 stored)
  pub stands_for : Counts z stored

stores :
    (column : String) (z : ℤ) (row : Row)
    → cell_under (codes column) (column_names audit_columns) row ≡ some (uint32 (to_unsigned 32 z))
    → StoresCount column z row
stores column z row e = record {
  stored = to_unsigned 32 z;
  here = e;
  stands_for = to_unsigned-Counts z;
}

-- Every number in a row that the writer appends lies in the range of its column's type, whatever the
-- parsers have read, and a token count that has 32 bits is stored as it is, under its own column. A larger one loses its
-- high bits, and a negative one is stored as the number that its two's complement stands for.
pub rows_in_range :
    (e : AuditEvent) (u : UnprocessedEvent)
    → All FitsCell (audit_row e)
      × All FitsCell (unprocessed_row u)
      × StoresCount "input_tokens" e.input_tokens (audit_row e)
      × StoresCount "output_tokens" e.output_tokens (audit_row e)
      × StoresCount "cache_read_tokens" e.cache_read_tokens (audit_row e)
      × StoresCount "cache_write_tokens" e.cache_write_tokens (audit_row e)
unfolding audit_row column_names eq_bytes
rows_in_range e u = (
  audit_row_fits e,
  unprocessed_row_fits u,
  stores "input_tokens" e.input_tokens (audit_row e) refl,
  stores "output_tokens" e.output_tokens (audit_row e) refl,
  stores "cache_read_tokens" e.cache_read_tokens (audit_row e) refl,
  stores "cache_write_tokens" e.cache_write_tokens (audit_row e) refl,
)
