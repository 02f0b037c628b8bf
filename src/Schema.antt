-- ===== src/Schema.antt =====
-- migrations/*.sql, statement by statement, and migrations/migrate.sh, which applies each file once.
-- What ClickHouse makes of a statement is written out as far as the files use it.
pub mod Files
pub mod Laws
pub mod Runs
use codesteward_audit_proxy.Base.{
  Bool, false, ◌&&◌, ◌||◌, Option, none, some, List, [], ◌∷◌, ◌++◌, if◌then◌else◌, ◌>>=◌,
  get_or_else,
}
use codesteward_audit_proxy.Base.Bytes.{Bytes, eq_bytes}

pub data ColumnType : Type 0 where
  string low_cardinality date_time array_of_string uint_8 uint_16 uint_32 : ColumnType

pub record Column : Type 0 where
  pub name : Bytes
  pub column_type : ColumnType

pub record Table : Type 0 where
  pub database : Bytes
  pub table : Bytes
  pub columns : List Column

pub record Schema : Type 0 where
  pub databases : List Bytes
  pub tables : List Table

-- A table is named with its database or without. Every statement has its IF NOT EXISTS.
pub data Statement : Type 0 where
  create_database : Bytes → Statement
  create_table : Option Bytes → Bytes → List Column → Statement
  add_column : Option Bytes → Bytes → Column → Option Bytes → Statement

abbrev pub is_listed : Bytes → List Bytes → Bool
is_listed x [] = false
is_listed x (y ∷ ys) = eq_bytes x y || is_listed x ys

abbrev pub is_named : Bytes → Bytes → Table → Bool
is_named db name t = eq_bytes db t.database && eq_bytes name t.table

unfoldable pub find_table : Bytes → Bytes → List Table → Option Table
unfolding eq_bytes
find_table db name [] = none
find_table db name (t ∷ ts) = if is_named db name t then some t else find_table db name ts

unfoldable pub find_column : Bytes → List Column → Option ColumnType
unfolding eq_bytes
find_column name [] = none
find_column name (c ∷ cs) = if eq_bytes name c.name then some c.column_type else find_column name cs

-- The new column goes to the end, or behind the one that AFTER names.
insert_column : Column → Option Bytes → List Column → List Column
unfolding eq_bytes
insert_column c none cs = cs ++ c ∷ []
insert_column c (some place) [] = c ∷ []
insert_column c (some place) (d ∷ cs) =
    if eq_bytes place d.name then d ∷ c ∷ cs else d ∷ insert_column c (some place) cs

abbrev with_column : Option ColumnType → Column → Option Bytes → List Column → List Column
with_column (some t) c place cs = cs
with_column none c place cs = insert_column c place cs

-- `none` where there is no such table.
alter_table : Bytes → Bytes → Column → Option Bytes → List Table → Option (List Table)
unfolding eq_bytes insert_column find_column
alter_table db name c place [] = none
alter_table db name c place (t ∷ ts) =
    if is_named db name t
    then some
        (record t { columns = with_column (find_column c.name t.columns) c place t.columns } ∷ ts)
    else alter_table db name c place ts >>= λ rest. some (t ∷ rest)

-- A statement against the database of the connection; `none` is an error.
unfoldable pub execute : Bytes → Statement → Schema → Option Schema
unfolding find_table alter_table eq_bytes
execute current (create_database db) s =
    some (if is_listed db s.databases then s else record s { databases = s.databases ++ db ∷ [] })
execute current (create_table at name cs) s =
    let db = get_or_else at current in
    if is_listed db s.databases
    then (elim (find_table db name s.tables) [
      | some t ↦ some s
      | none ↦ some (record s {
        tables = s.tables ++ (record { database = db; table = name; columns = cs }) ∷ [];
      })
    ])
    else none
execute current (add_column at name c place) s =
    alter_table (get_or_else at current) name c place s.tables >>= λ ts.
    some (record s { tables = ts })

unfoldable pub execute_all : Bytes → List Statement → Schema → Option Schema
unfolding execute
execute_all current [] s = some s
execute_all current (x ∷ xs) s = execute current x s >>= execute_all current xs

pub record File : Type 0 where
  pub version : Bytes
  pub statements : List Statement

-- The database server, with the versions in schema_migrations of the database at hand.
pub record DatabaseServer : Type 0 where
  pub schema : Schema
  pub applied : List Bytes

-- One turn of the loop over the files.
unfoldable pub apply_file : Bytes → File → DatabaseServer → Option DatabaseServer
unfolding execute_all eq_bytes
apply_file db f s =
    if is_listed f.version s.applied
    then some s
    else execute_all db f.statements s.schema >>= λ schema.
        some (record { schema = schema; applied = s.applied ++ f.version ∷ [] })

unfoldable pub apply_files : Bytes → List File → DatabaseServer → Option DatabaseServer
unfolding apply_file
apply_files db [] s = some s
apply_files db (f ∷ fs) s = apply_file db f s >>= apply_files db fs

-- migrate.sh, with its CLICKHOUSE_DB: the database first, and then the files. `none` is an exit
-- with an error.
unfoldable pub migrate : Bytes → List File → DatabaseServer → Option DatabaseServer
unfolding apply_files execute
migrate db fs s = execute db (create_database db) s.schema >>= λ schema.
    apply_files db fs (record s { schema = schema })

abbrev pub empty_server : DatabaseServer
empty_server = record { schema = record { databases = []; tables = [] }; applied = [] }
