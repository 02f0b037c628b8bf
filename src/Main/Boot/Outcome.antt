-- ===== src/Main/Boot/Outcome.antt =====
-- Every way in which the program gets on up to its server.
use codesteward_audit_proxy.Base.{◌≡◌, false, none, some}
use codesteward_audit_proxy.Base.Bytes.{Bytes}
use codesteward_audit_proxy.Audit.Scrubber.{built, invalid_pattern}
use codesteward_audit_proxy.Audit.Scrubber.Laws.{Outcome}
use codesteward_audit_proxy.Audit.Writer.Open.{Writer}
use codesteward_audit_proxy.Config.{Config, LoadError, ok, err, Environment, load}
use codesteward_audit_proxy.Config.Laws.{LoadOutcome}
use codesteward_audit_proxy.Proxy.Router.{new_router_with_config}
use codesteward_audit_proxy.Telemetry.{Globals, Shutdown, setup}
use codesteward_audit_proxy.Main.{router_config}
use codesteward_audit_proxy.Main.{audit_channel_limit}
use codesteward_audit_proxy.Main.Outcome.{IsRefused}
use codesteward_audit_proxy.Main.Boot.{
  Outside, opens, Program, Boot, boot_configuration, boot_telemetry, boot_no_writer,
  boot_invalid_pattern, boot_panics, serves,
}
use codesteward_audit_proxy.Main.Boot.Laws.{Booted}

module _ (o : Outside) (env : Environment) where
  -- Load and Setup have succeeded, with this configuration.
  pub record Configured (cfg : Config) : Type 0 where
    pub globals : Globals
    pub otel_shutdown : Shutdown
    pub loaded : load o.parse_duration o.git env ≡ ok cfg
    pub set_up : setup o.sdk env ≡ (globals, some otel_shutdown)

  pub data BootOutcome : Boot o → Type 0 where
    not_loaded :
        {e : LoadError}
        → LoadOutcome o.parse_duration o.git env (err e)
        → BootOutcome (boot_configuration e)
    not_set_up :
        {cfg : Config} {globals : Globals}
        → load o.parse_duration o.git env ≡ ok cfg
        → setup o.sdk env ≡ (globals, none)
        → BootOutcome boot_telemetry
    not_opened :
        {cfg : Config}
        → Configured cfg
        → opens o cfg.click_house_dsn cfg.click_house_db ≡ false
        → BootOutcome boot_no_writer
    not_compiled :
        {cfg : Config} {q : Bytes}
        → Configured cfg
        → Outcome o.engine cfg.scrub_patterns (invalid_pattern q)
        → BootOutcome (boot_invalid_pattern q)
    batcher_refused :
        {cfg : Config}
        → Configured cfg
        → IsRefused audit_channel_limit cfg.batch_size cfg.batch_interval
        → BootOutcome boot_panics
    router_refused :
        {cfg : Config}
        → Configured cfg
        → new_router_with_config o.parse_url (router_config cfg) ≡ none
        → BootOutcome boot_panics
    serving :
        {cfg : Config} {prog : Program o}
        → Configured cfg
        → Outcome o.engine cfg.scrub_patterns (built prog.parts.scrubber)
        → Booted o env prog
        → BootOutcome (serves prog)
