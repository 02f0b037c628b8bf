-- ===== src/Schema/Files.antt =====
-- The statements of the files of migrations, in their order.
use codesteward_audit_proxy.Base.{String, Option, none, some, List, [], ◌∷◌}
use codesteward_audit_proxy.Base.Bytes.{Bytes, codes}
use codesteward_audit_proxy.Schema.{
  ColumnType, string, low_cardinality, date_time, array_of_string, uint_8, uint_16, uint_32, Column,
  create_database, create_table, add_column, File,
}

abbrev column : String → ColumnType → Column
column name t = record { name = codes name; column_type = t }

abbrev audit : Option Bytes
audit = some (codes "audit")

abbrev pub initial : File
initial = record {
  version = codes "001_initial";
  statements =
      create_database (codes "audit")
      ∷ create_table audit (codes "audit_events") (
          column "session_id" string
          ∷ column "turn_id" string
          ∷ column "ts" date_time
          ∷ column "agent" low_cardinality
          ∷ column "project" string
          ∷ column "branch" low_cardinality
          ∷ column "direction" low_cardinality
          ∷ column "thinking" array_of_string
          ∷ column "assistant_text" array_of_string
          ∷ column "tool_name" string
          ∷ column "tool_input" string
          ∷ column "model" low_cardinality
          ∷ column "raw" string
          ∷ [])
      ∷ [];
}

abbrev pub add_branch : File
add_branch = record {
  version = codes "002_add_branch";
  statements =
      add_column audit (codes "audit_events") (column "branch" low_cardinality)
        (some (codes "project"))
      ∷ [];
}

abbrev pub request_capture : File
request_capture = record {
  version = codes "003_request_capture";
  statements =
      add_column audit (codes "audit_events") (column "request_captured" uint_8) none
      ∷ add_column audit (codes "audit_events") (column "user_messages" array_of_string) none
      ∷ [];
}

-- The one file that names its table without a database.
abbrev pub sap_ai_core : File
sap_ai_core = record {
  version = codes "004_sapaicore";
  statements =
      add_column none (codes "audit_events") (column "resource_group" low_cardinality) none ∷ [];
}

abbrev pub add_user_team : File
add_user_team = record {
  version = codes "005_add_user_team";
  statements =
      add_column audit (codes "audit_events") (column "user" low_cardinality) none
      ∷ add_column audit (codes "audit_events") (column "team" low_cardinality) none
      ∷ [];
}

abbrev pub unprocessed_events : File
unprocessed_events = record {
  version = codes "006_unprocessed_events";
  statements =
      create_table audit (codes "unprocessed_events") (
        column "session_id" string
        ∷ column "turn_id" string
        ∷ column "ts" date_time
        ∷ column "agent" low_cardinality
        ∷ column "project" string
        ∷ column "branch" low_cardinality
        ∷ column "user" low_cardinality
        ∷ column "team" low_cardinality
        ∷ column "direction" low_cardinality
        ∷ column "method" low_cardinality
        ∷ column "path" string
        ∷ column "status_code" uint_16
        ∷ column "content_type" low_cardinality
        ∷ column "raw" string
        ∷ column "error" string
        ∷ [])
      ∷ [];
}

abbrev pub add_token_usage : File
add_token_usage = record {
  version = codes "007_add_token_usage";
  statements =
      add_column audit (codes "audit_events") (column "input_tokens" uint_32) none
      ∷ add_column audit (codes "audit_events") (column "output_tokens" uint_32) none
      ∷ add_column audit (codes "audit_events") (column "cache_read_tokens" uint_32) none
      ∷ add_column audit (codes "audit_events") (column "cache_write_tokens" uint_32) none
      ∷ [];
}

abbrev pub files : List File
files =
    initial ∷ add_branch ∷ request_capture ∷ sap_ai_core ∷ add_user_team ∷ unprocessed_events
    ∷ add_token_usage ∷ []
