-- ===== src/Telemetry.antt =====
-- internal/telemetry/otel.go. What the OpenTelemetry SDK makes of its calls is a parameter: whether
-- each exporter is created, and whether the resources merge.
pub mod Laws
use codesteward_audit_proxy.Base.{
  Bool, true, false, Option, none, some, List, [], ◌∷◌, is_nil, if◌then◌else◌,
}
use codesteward_audit_proxy.Base.Bytes.{Bytes, codes}
use codesteward_audit_proxy.Config.{Environment, get_env}

abbrev pub instrumentation_name : Bytes
instrumentation_name = codes "llm-audit-proxy"

pub record Sdk : Type 0 where
  pub new_trace_exporter : Bool
  pub merge : Bool
  pub new_metric_exporter : Bool

-- A resource for the service, merged with the default one or bare.
pub record Resource : Type 0 where
  pub service : Bytes
  pub merged : Bool

-- The global providers, where Setup has set them, and the propagator.
pub record Globals : Type 0 where
  pub propagator : Bool
  pub tracer : Option Resource
  pub meter : Option Resource

-- What Setup gives back to be called on exit.
pub data Shutdown : Type 0 where
  nothing_to_stop stop_traces stop_both : Shutdown

abbrev or_default : Bytes → Bytes
or_default s = if is_nil s then instrumentation_name else s

unfoldable pub service_name : Environment → Bytes
unfolding get_env
service_name env = or_default (get_env env "OTEL_SERVICE_NAME" [])

abbrev no_globals : Globals
no_globals = record { propagator = false; tracer = none; meter = none }

-- `none` is the error of the trace exporter.
unfoldable pub setup : Sdk → Environment → Globals × Option Shutdown
unfolding get_env service_name
setup sdk env =
    let res : Resource = record { service = service_name env; merged = sdk.merge } in
    if is_nil (get_env env "OTEL_EXPORTER_OTLP_ENDPOINT" [])
    then (no_globals, some nothing_to_stop)
    else if sdk.new_trace_exporter
    then (if sdk.new_metric_exporter
        then (record { propagator = true; tracer = some res; meter = some res }, some stop_both)
        else (record { propagator = true; tracer = some res; meter = none }, some stop_traces))
    else (record { propagator = true; tracer = none; meter = none }, none)

-- The providers' Shutdown calls.
pub data Provider : Type 0 where
  traces metrics : Provider

abbrev pub first_error {ℓ} : {A : Type ℓ} → Option A → Option A → Option A
first_error none e = e
first_error (some t) e = some t

-- What the shutdown function calls, and the error it returns, on the errors of the two providers.
unfoldable pub shutdown {ℓ} :
    {A : Type ℓ} → Shutdown → Option A → Option A → List Provider × Option A
shutdown nothing_to_stop t m = ([], none)
shutdown stop_traces t m = (traces ∷ [], t)
shutdown stop_both t m = (traces ∷ metrics ∷ [], first_error t m)
