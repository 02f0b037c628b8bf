-- ===== src/Audit/Writer/Open.antt =====
-- NewWriter of internal/audit/clickhouse.go. ParseDSN and Open of the driver are parameters.
use codesteward_audit_proxy.Base.{Option, some, ◌>>=◌}
use codesteward_audit_proxy.Base.Bytes.{Bytes}
use codesteward_audit_proxy.Audit.Writer.{Driver}

pub record Writer : Type 0 where
  pub conn : Driver
  pub db : Bytes

module _ {Options : Type 0} (parse_dsn : Bytes → Option Options)
    (open_conn : Options → Option Driver) where
  unfoldable pub new_writer : Bytes → Bytes → Option Writer
  new_writer dsn db =
      parse_dsn dsn >>= λ opts. open_conn opts >>= λ conn. some (record { conn = conn; db = db })
