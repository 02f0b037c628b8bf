-- ===== src/Audit/Event.antt =====
-- internal/audit/event.go. An instant is a number of nanoseconds.
use codesteward_audit_proxy.Base.{ℕ, Bool, false, List, []}
use codesteward_audit_proxy.Base.Bytes.{Bytes}
use codesteward_audit_proxy.Base.Int.{ℤ, pos}

pub record UnprocessedEvent : Type 0 where
  pub session_id : Bytes
  pub turn_id : Bytes
  pub ts : ℕ
  pub agent : Bytes
  pub project : Bytes
  pub branch : Bytes
  pub user : Bytes
  pub team : Bytes
  pub direction : Bytes
  pub method : Bytes
  pub path : Bytes
  pub status_code : ℤ
  pub content_type : Bytes
  pub raw : Bytes
  pub error : Bytes

pub record AuditEvent : Type 0 where
  pub session_id : Bytes
  pub turn_id : Bytes
  pub ts : ℕ
  pub agent : Bytes
  pub project : Bytes
  pub branch : Bytes
  pub direction : Bytes
  pub thinking : List Bytes
  pub assistant_text : List Bytes
  pub tool_name : Bytes
  pub tool_input : Bytes
  pub model : Bytes
  pub raw : Bytes
  pub user : Bytes
  pub team : Bytes
  pub resource_group : Bytes
  pub request_captured : Bool
  pub user_messages : List Bytes
  pub input_tokens : ℤ
  pub output_tokens : ℤ
  pub cache_read_tokens : ℤ
  pub cache_write_tokens : ℤ

-- The zero value, from which a literal that leaves fields out starts.
abbrev pub zero_audit_event : AuditEvent
zero_audit_event = record {
  session_id = [];
  turn_id = [];
  ts = 0;
  agent = [];
  project = [];
  branch = [];
  direction = [];
  thinking = [];
  assistant_text = [];
  tool_name = [];
  tool_input = [];
  model = [];
  raw = [];
  user = [];
  team = [];
  resource_group = [];
  request_captured = false;
  user_messages = [];
  input_tokens = pos 0;
  output_tokens = pos 0;
  cache_read_tokens = pos 0;
  cache_write_tokens = pos 0;
}
