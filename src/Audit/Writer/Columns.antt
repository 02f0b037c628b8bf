-- ===== src/Audit/Writer/Columns.antt =====
-- The column lists of the INSERT statements beside the rows that are appended.
use codesteward_audit_proxy.Base.{
  String, ◌≡◌, refl, Option, none, some, List, [], ◌∷◌, map, if◌then◌else◌, ◌>>=◌,
}
use codesteward_audit_proxy.Base.Bytes.{Bytes, codes, trim_left, trim_right, split}
use codesteward_audit_proxy.Base.Int.{to_unsigned}
use codesteward_audit_proxy.Audit.Event.{AuditEvent, UnprocessedEvent}
use codesteward_audit_proxy.Audit.Scrubber.{trim_space}
use codesteward_audit_proxy.Audit.Writer.{
  Cell, text, texts, instant, uint8, uint16, uint32, Row, audit_columns, unprocessed_columns,
  audit_row, unprocessed_row,
}

-- The names in a list of columns.
unfoldable pub column_names : String → List Bytes
unfolding split trim_space trim_left trim_right
column_names s = map trim_space (split b',' (codes s))

-- A table row read through the names of its columns; a name or a cell too many is an error.
unfoldable pub labelled : List Bytes → Row → Option (List (Bytes × Cell))
labelled [] [] = some []
labelled [] (x ∷ xs) = none
labelled (n ∷ ns) [] = none
labelled (n ∷ ns) (x ∷ xs) = labelled ns xs >>= λ rest. some ((n, x) ∷ rest)

-- The fields of an event by the names of their columns.
abbrev pub audit_cells : AuditEvent → List (Bytes × Cell)
audit_cells e =
    (codes "session_id", text e.session_id)
    ∷ (codes "turn_id", text e.turn_id)
    ∷ (codes "ts", instant e.ts)
    ∷ (codes "agent", text e.agent)
    ∷ (codes "project", text e.project)
    ∷ (codes "branch", text e.branch)
    ∷ (codes "direction", text e.direction)
    ∷ (codes "thinking", texts e.thinking)
    ∷ (codes "assistant_text", texts e.assistant_text)
    ∷ (codes "tool_name", text e.tool_name)
    ∷ (codes "tool_input", text e.tool_input)
    ∷ (codes "model", text e.model)
    ∷ (codes "raw", text e.raw)
    ∷ (codes "request_captured", uint8 (if e.request_captured then 1 else 0))
    ∷ (codes "user_messages", texts e.user_messages)
    ∷ (codes "resource_group", text e.resource_group)
    ∷ (codes "user", text e.user)
    ∷ (codes "team", text e.team)
    ∷ (codes "input_tokens", uint32 (to_unsigned 32 e.input_tokens))
    ∷ (codes "output_tokens", uint32 (to_unsigned 32 e.output_tokens))
    ∷ (codes "cache_read_tokens", uint32 (to_unsigned 32 e.cache_read_tokens))
    ∷ (codes "cache_write_tokens", uint32 (to_unsigned 32 e.cache_write_tokens))
    ∷ []

-- WriteBatch appends one cell for each column it names, and under each name stands the field of the
-- event with that name: under request_captured 1 or 0, and under the token columns the counts modulo
-- 2 ^ 32.
pub audit_row-columns :
    (e : AuditEvent) → labelled (column_names audit_columns) (audit_row e) ≡ some (audit_cells e)
unfolding column_names labelled audit_row
audit_row-columns e = refl

-- The fields of an unprocessed event by the names of their columns.
abbrev pub unprocessed_cells : UnprocessedEvent → List (Bytes × Cell)
unprocessed_cells e =
    (codes "session_id", text e.session_id)
    ∷ (codes "turn_id", text e.turn_id)
    ∷ (codes "ts", instant e.ts)
    ∷ (codes "agent", text e.agent)
    ∷ (codes "project", text e.project)
    ∷ (codes "branch", text e.branch)
    ∷ (codes "user", text e.user)
    ∷ (codes "team", text e.team)
    ∷ (codes "direction", text e.direction)
    ∷ (codes "method", text e.method)
    ∷ (codes "path", text e.path)
    ∷ (codes "status_code", uint16 (to_unsigned 16 e.status_code))
    ∷ (codes "content_type", text e.content_type)
    ∷ (codes "raw", text e.raw)
    ∷ (codes "error", text e.error)
    ∷ []

-- WriteUnprocessedBatch appends one cell for each column it names, and under each name stands the
-- field of the event with that name: under status_code the status modulo 2 ^ 16.
pub unprocessed_row-columns :
    (e : UnprocessedEvent)
    → labelled (column_names unprocessed_columns) (unprocessed_row e) ≡ some (unprocessed_cells e)
unfolding column_names labelled unprocessed_row
unprocessed_row-columns e = refl
