-- ===== src/Tests/Startup.antt =====
-- Load in concrete environments, and a start.
use codesteward_audit_proxy.Base.{true, none, some, if◌then◌else◌}
use codesteward_audit_proxy.Base.Bytes.{codes, eq_bytes}
use codesteward_audit_proxy.Config.{Environment, load}
use codesteward_audit_proxy.Config.Laws.{LoadOutcome, load-LoadOutcome}
use codesteward_audit_proxy.Telemetry.{Sdk}

-- A negative batch size, and a DSN.
abbrev negative_size : Environment
negative_size key =
    if eq_bytes key (codes "BATCH_SIZE")
    then some (codes "-1")
    else if eq_bytes key (codes "CLICKHOUSE_DSN")
    then some (codes "clickhouse://db")
    else none

load-LoadOutcome_example :
    LoadOutcome (λ s. none) none negative_size (load (λ s. none) none negative_size)
load-LoadOutcome_example = load-LoadOutcome (λ s. none) none negative_size

-- Only an endpoint is set.
abbrev traced : Environment
traced key =
    if eq_bytes key (codes "OTEL_EXPORTER_OTLP_ENDPOINT") then some (codes "http://o") else none

abbrev pub all_created : Sdk
all_created = record { new_trace_exporter = true; merge = true; new_metric_exporter = true }
