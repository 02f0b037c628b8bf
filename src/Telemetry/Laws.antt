-- ===== src/Telemetry/Laws.antt =====
-- What Setup installs is what its shutdown function stops.
use codesteward_audit_proxy.Base.{
  ◌≡◌, true, false, Option, none, some, List, [], ◌∷◌, ◌++◌, is_nil, OnSome, Bool, if◌then◌else◌,
}
use codesteward_audit_proxy.Base.Bytes.{Bytes}
use codesteward_audit_proxy.Config.{Environment, get_env}
use codesteward_audit_proxy.Telemetry.{
  Sdk, Resource, Globals, Shutdown, service_name, Provider, traces, metrics, first_error, shutdown,
}

abbrev given : Provider → Option Resource → List Provider
given p none = []
given p (some r) = p ∷ []

-- The providers that are installed.
abbrev pub installed : Globals → List Provider
installed g = given traces g.tracer ++ given metrics g.meter

abbrev error_of {ℓ} : {A : Type ℓ} → Option A → Option A → Provider → Option A
error_of t m traces = t
error_of t m metrics = m

-- The first error among providers that are shut down in this order.
abbrev pub first_of {ℓ} : {A : Type ℓ} → Option A → Option A → List Provider → Option A
first_of t m [] = none
first_of t m (p ∷ ps) = first_error (error_of t m p) (first_of t m ps)

-- A resource names this service, and holds the default one where the two could be merged.
abbrev pub Describes : Bytes → Bool → Resource → Type 0
Describes service merged r = (r.service ≡ service) × (r.merged ≡ merged)

-- What a setup comes to. Without an endpoint nothing is installed and nothing is to be stopped. With
-- one the propagator is set, and either the SDK creates no trace exporter, nothing else is installed
-- and there is an error, or it creates one and the tracer is installed, the meter exactly if the SDK
-- creates a metric exporter too, and the shutdown function stops exactly the installed providers,
-- each under the configured name.
pub data SetupOutcome {ℓ} (A : Type ℓ) (sdk : Sdk) (env : Environment)
    : Globals × Option Shutdown → Type ℓ where
  off :
      {g : Globals} {s : Shutdown}
      → is_nil (get_env env "OTEL_EXPORTER_OTLP_ENDPOINT" []) ≡ true
      → g.propagator ≡ false
      → installed g ≡ []
      → ((t m : Option A) → shutdown s t m ≡ ([], none))
      → SetupOutcome A sdk env (g, some s)
  no_exporter :
      {g : Globals}
      → is_nil (get_env env "OTEL_EXPORTER_OTLP_ENDPOINT" []) ≡ false
      → sdk.new_trace_exporter ≡ false
      → g.propagator ≡ true
      → installed g ≡ []
      → SetupOutcome A sdk env (g, none)
  on :
      {g : Globals} {s : Shutdown}
      → is_nil (get_env env "OTEL_EXPORTER_OTLP_ENDPOINT" []) ≡ false
      → sdk.new_trace_exporter ≡ true
      → g.propagator ≡ true
      → installed g ≡ traces ∷ (if sdk.new_metric_exporter then metrics ∷ [] else [])
      → OnSome (Describes (service_name env) sdk.merge) g.tracer
      → OnSome (Describes (service_name env) sdk.merge) g.meter
      → ((t m : Option A) → shutdown s t m ≡ (installed g, first_of t m (installed g)))
      → SetupOutcome A sdk env (g, some s)
