-- ===== src/Audit/Writer.antt =====
-- internal/audit/clickhouse.go, and the `flush` methods of internal/audit/batcher.go. The driver is
-- a parameter: which calls it refuses. A row is the list of Append's arguments.
pub mod Laws
pub mod Columns
pub mod Bounds
pub mod Open
use codesteward_audit_proxy.Base.{
  ℕ, ◌+◌, String, Bool, Option, none, some, List, [], ◌∷◌, ◌++◌, if◌then◌else◌,
}
use codesteward_audit_proxy.Base.Bytes.{Bytes, codes}
use codesteward_audit_proxy.Base.Int.{to_unsigned}
use codesteward_audit_proxy.Audit.Event.{AuditEvent, UnprocessedEvent}

pub data Cell : Type 0 where
  text : Bytes → Cell
  texts : List Bytes → Cell
  instant : ℕ → Cell
  uint8 uint16 uint32 : ℕ → Cell

abbrev pub Row : Type 0
Row = List Cell

-- clickhouse.Conn and driver.Batch: whether PrepareBatch takes the query, whether Append takes the
-- row behind those taken before, and whether Send sends the rows.
pub record Driver : Type 0 where
  pub prepare : Bytes → Bool
  pub append : List Row → Row → Bool
  pub send : List Row → Bool

pub data WriteError : Type 0 where
  prepare_batch append_row send_batch : WriteError

-- What a write leaves in the database: nothing, or the rows of one INSERT.
pub data Outcome : Type 0 where
  nothing_to_write : Outcome
  failed : WriteError → Outcome
  inserted : Bytes → List Row → Outcome

abbrev pub audit_columns : String
audit_columns =
    "session_id, turn_id, ts, agent, project, branch, direction, thinking, assistant_text, tool_name, tool_input, model, raw, request_captured, user_messages, resource_group, user, team, input_tokens, output_tokens, cache_read_tokens, cache_write_tokens"

abbrev pub unprocessed_columns : String
unprocessed_columns =
    "session_id, turn_id, ts, agent, project, branch, user, team, direction, method, path, status_code, content_type, raw, error"

unfoldable pub audit_query : Bytes → Bytes
audit_query db =
    codes "INSERT INTO " ++ (db ++ (codes ".audit_events (" ++ (codes audit_columns ++ codes ")")))

unfoldable pub unprocessed_query : Bytes → Bytes
unprocessed_query db =
    codes "INSERT INTO "
    ++ (db ++ (codes ".unprocessed_events (" ++ (codes unprocessed_columns ++ codes ")")))

unfoldable pub audit_row : AuditEvent → Row
unfolding to_unsigned
audit_row e =
    text e.session_id
    ∷ text e.turn_id
    ∷ instant e.ts
    ∷ text e.agent
    ∷ text e.project
    ∷ text e.branch
    ∷ text e.direction
    ∷ texts e.thinking
    ∷ texts e.assistant_text
    ∷ text e.tool_name
    ∷ text e.tool_input
    ∷ text e.model
    ∷ text e.raw
    ∷ uint8 (if e.request_captured then 1 else 0)
    ∷ texts e.user_messages
    ∷ text e.resource_group
    ∷ text e.user
    ∷ text e.team
    ∷ uint32 (to_unsigned 32 e.input_tokens)
    ∷ uint32 (to_unsigned 32 e.output_tokens)
    ∷ uint32 (to_unsigned 32 e.cache_read_tokens)
    ∷ uint32 (to_unsigned 32 e.cache_write_tokens)
    ∷ []

unfoldable pub unprocessed_row : UnprocessedEvent → Row
unfolding to_unsigned
unprocessed_row e =
    text e.session_id
    ∷ text e.turn_id
    ∷ instant e.ts
    ∷ text e.agent
    ∷ text e.project
    ∷ text e.branch
    ∷ text e.user
    ∷ text e.team
    ∷ text e.direction
    ∷ text e.method
    ∷ text e.path
    ∷ uint16 (to_unsigned 16 e.status_code)
    ∷ text e.content_type
    ∷ text e.raw
    ∷ text e.error
    ∷ []

-- The loop over the events: the rows that the batch holds behind it, or `none` at the first row
-- that is refused.
unfoldable pub append_rows {ℓ} :
    {E : Type ℓ} → Driver → (E → Row) → List Row → List E → Option (List Row)
append_rows driver row rows [] = some rows
append_rows driver row rows (e ∷ es) =
    let rest = append_rows driver row (rows ++ row e ∷ []) es in
    if driver.append rows (row e) then rest else none

unfoldable pub send_rows : Driver → Bytes → Option (List Row) → Outcome
send_rows driver query none = failed append_row
send_rows driver query (some rows) =
    if driver.send rows then inserted query rows else failed send_batch

-- The body that WriteBatch and WriteUnprocessedBatch share.
unfoldable pub write_rows {ℓ} : {E : Type ℓ} → Driver → Bytes → (E → Row) → List E → Outcome
unfolding append_rows send_rows
write_rows driver query row [] = nothing_to_write
write_rows driver query row (e ∷ es) =
    if driver.prepare query
    then send_rows driver query (append_rows driver row [] (e ∷ es))
    else failed prepare_batch

unfoldable pub write_batch : Driver → Bytes → List AuditEvent → Outcome
unfolding write_rows audit_query audit_row
write_batch driver db events = write_rows driver (audit_query db) audit_row events

unfoldable pub write_unprocessed_batch : Driver → Bytes → List UnprocessedEvent → Outcome
unfolding write_rows unprocessed_query unprocessed_row
write_unprocessed_batch driver db events =
    write_rows driver (unprocessed_query db) unprocessed_row events

-- The rows of a table after a write.
abbrev pub store : List Row → Outcome → List Row
store table nothing_to_write = table
store table (failed e) = table
store table (inserted query rows) = table ++ rows

-- `flush` of Batcher with no flushFn: an error is logged and the batch is discarded.
unfoldable pub flush_batch : Driver → Bytes → List Row → List AuditEvent → List Row
unfolding write_batch
flush_batch driver db table events = store table (write_batch driver db events)

-- `flush` of UnprocessedBatcher.
unfoldable pub flush_unprocessed : Driver → Bytes → List Row → List UnprocessedEvent → List Row
unfolding write_unprocessed_batch
flush_unprocessed driver db table events = store table (write_unprocessed_batch driver db events)

-- The table after the batches that a batcher handed over.
unfoldable pub flush_all {ℓ} :
    {E : Type ℓ} → (List Row → List E → List Row) → List Row → List (List E) → List Row
flush_all flush table [] = table
flush_all flush table (batch ∷ batches) = flush_all flush (flush table batch) batches
