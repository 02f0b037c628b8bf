-- ===== src/Schema/Laws.antt =====
-- The tables that the migrations make, beside the rows that the writer sends; and a second run.
use codesteward_audit_proxy.Base.{
  ◌≡◌, refl, Bool, true, false, ◌&&◌, not, Option, none, some, List, [], ◌∷◌,
}
use codesteward_audit_proxy.Base.Bytes.{Bytes, codes, eq_bytes}
use codesteward_audit_proxy.Audit.Event.{AuditEvent, UnprocessedEvent}
use codesteward_audit_proxy.Audit.Writer.{
  Cell, text, texts, instant, uint8, uint16, uint32, Row, audit_columns, unprocessed_columns,
  audit_row, unprocessed_row,
}
use codesteward_audit_proxy.Audit.Writer.Columns.{
  column_names, labelled, audit_cells, unprocessed_cells, audit_row-columns,
  unprocessed_row-columns,
}
use codesteward_audit_proxy.Schema.{
  ColumnType, string, low_cardinality, date_time, array_of_string, uint_8, uint_16, uint_32, Column,
  Table, is_listed, find_table, find_column, DatabaseServer, migrate, empty_server,
}
use codesteward_audit_proxy.Schema.Files.{files}

-- A cell that a column of the type takes.
abbrev pub has_type : ColumnType → Cell → Bool
has_type string (text s) = true
has_type low_cardinality (text s) = true
has_type date_time (instant t) = true
has_type array_of_string (texts ss) = true
has_type uint_8 (uint8 n) = true
has_type uint_16 (uint16 n) = true
has_type uint_32 (uint32 n) = true
has_type t c = false

abbrev has_found_type : Option ColumnType → Cell → Bool
has_found_type none c = false
has_found_type (some t) c = has_type t c

-- Each named cell has the type of its column.
abbrev pub cells_typed : List Column → List (Bytes × Cell) → Bool
cells_typed columns [] = true
cells_typed columns ((name, c) ∷ cs) =
    has_found_type (find_column name columns) c && cells_typed columns cs

-- No name stands twice.
abbrev pub all_distinct : List Bytes → Bool
all_distinct [] = true
all_distinct (x ∷ xs) = not (is_listed x xs) && all_distinct xs

-- Each column of the table is named.
abbrev pub all_filled : List Column → List Bytes → Bool
all_filled [] names = true
all_filled (c ∷ cs) names = is_listed c.name names && all_filled cs names

abbrev pub row_typed : List Column → Option (List (Bytes × Cell)) → Bool
row_typed columns none = false
row_typed columns (some cells) = cells_typed columns cells

-- A table takes a row under these names, and no column of it is left to a default.
abbrev pub takes : Option Table → List Bytes → Row → Bool
takes none names row = false
takes (some t) names row =
    all_distinct names && (all_filled t.columns names && row_typed t.columns (labelled names row))

-- The table of this name on the server that a run of the migrations leaves.
abbrev pub table_on : Option DatabaseServer → Bytes → Bytes → Option Table
table_on none db name = none
table_on (some s) db name = find_table db name s.schema.tables

-- Under each column that an INSERT names stands the event's field of that name, and the table that the
-- migrations make on an empty server takes the row: it has a column of every name, none is named
-- twice and none is left out, and each cell has the type of its column.
pub rows-typed :
    (e : AuditEvent) (u : UnprocessedEvent)
    → (labelled (column_names audit_columns) (audit_row e) ≡ some (audit_cells e))
      × (labelled (column_names unprocessed_columns) (unprocessed_row u)
          ≡ some (unprocessed_cells u))
      × (takes
            (table_on
              (migrate (codes "audit") files empty_server)
              (codes "audit")
              (codes "audit_events"))
            (column_names audit_columns)
            (audit_row e)
          ≡ true)
      × (takes
            (table_on
              (migrate (codes "audit") files empty_server)
              (codes "audit")
              (codes "unprocessed_events"))
            (column_names unprocessed_columns)
            (unprocessed_row u)
          ≡ true)
unfolding migrate column_names labelled audit_row unprocessed_row find_table find_column eq_bytes
rows-typed e u = (audit_row-columns e, unprocessed_row-columns u, refl, refl)
