-- ===== src/Tests/Schema.antt =====
-- The migrations on an empty server.
use codesteward_audit_proxy.Base.{◌≡◌, refl, ◌≢◌, true, none, some, get_or_else}
use codesteward_audit_proxy.Base.Bytes.{codes}
use codesteward_audit_proxy.Audit.Writer.{
  audit_columns, unprocessed_columns, audit_row, unprocessed_row,
}
use codesteward_audit_proxy.Audit.Writer.Columns.{
  column_names, labelled, audit_cells, unprocessed_cells,
}
use codesteward_audit_proxy.Schema.{DatabaseServer, migrate, empty_server}
use codesteward_audit_proxy.Schema.Files.{files}
use codesteward_audit_proxy.Schema.Laws.{takes, table_on, rows-typed}
use codesteward_audit_proxy.Schema.Runs.{migrate-migrate, migrate-other}
use codesteward_audit_proxy.Tests.Audit.{event_of, seen}

rows-typed_example :
    (labelled (column_names audit_columns) (audit_row (event_of "a"))
      ≡ some (audit_cells (event_of "a")))
    × (labelled (column_names unprocessed_columns) (unprocessed_row seen)
        ≡ some (unprocessed_cells seen))
    × (takes
          (table_on
            (migrate (codes "audit") files empty_server)
            (codes "audit")
            (codes "audit_events"))
          (column_names audit_columns)
          (audit_row (event_of "a"))
        ≡ true)
    × (takes
          (table_on
            (migrate (codes "audit") files empty_server)
            (codes "audit")
            (codes "unprocessed_events"))
          (column_names unprocessed_columns)
          (unprocessed_row seen)
        ≡ true)
rows-typed_example = rows-typed (event_of "a") seen

abbrev migrated : DatabaseServer
migrated = get_or_else (migrate (codes "audit") files empty_server) empty_server

runs_once : migrate (codes "audit") files empty_server ≡ some migrated
unfolding migrate
runs_once = refl

migrate-migrate_example : migrate (codes "audit") files migrated ≡ some migrated
migrate-migrate_example = migrate-migrate (codes "audit") files empty_server runs_once

other_name : codes "default" ≢ codes "audit"
other_name e = cc e

migrate-other_example : migrate (codes "default") files empty_server ≡ none
migrate-other_example = migrate-other (codes "default") other_name
