-- ===== src/Main/Boot.antt =====
-- The beginning of `main` in cmd/proxy/main.go, up to the server: the configuration, the logger, the
-- telemetry, the writer, the other parts, and the handler. The ping of the database only logs.
pub mod Laws
pub mod Outcome
use codesteward_audit_proxy.Base.{ℕ, Bool, true, false, Option, none, some, if◌then◌else◌}
use codesteward_audit_proxy.Base.Bytes.{Bytes, codes, eq_bytes}
use codesteward_audit_proxy.Base.Int.{ℤ}
use codesteward_audit_proxy.Audit.Scrubber.{Engine, scrub}
use codesteward_audit_proxy.Audit.Writer.{Driver}
use codesteward_audit_proxy.Audit.Writer.Open.{Writer, new_writer}
use codesteward_audit_proxy.Config.{Config, LoadError, Loaded, ok, err, Environment, load}
use codesteward_audit_proxy.Proxy.Http.{Url}
use codesteward_audit_proxy.Proxy.Handler.{Handler}
use codesteward_audit_proxy.Proxy.Serve.{new_handler}
use codesteward_audit_proxy.Telemetry.{Sdk, Globals, Shutdown, setup}
use codesteward_audit_proxy.Main.{
  Parts, Start, exits_no_writer, exits_invalid_pattern, panics, started, start,
}

-- What the program takes from the packages that it is built on, and from the system.
pub record Outside : Type 1 where
  pub engine : Engine
  pub parse_url : Bytes → Option Url
  pub parse_duration : Bytes → Option ℤ
  pub git : Option Bytes
  pub Options : Type 0
  pub parse_dsn : Bytes → Option Options
  pub open_conn : Options → Option Driver
  pub sdk : Sdk

pub data Level : Type 0 where
  level_debug level_info level_warn level_error : Level

-- setupLogger
unfoldable pub log_level_of : Bytes → Level
unfolding eq_bytes
log_level_of level =
    if eq_bytes level (codes "debug")
    then level_debug
    else if eq_bytes level (codes "warn")
    then level_warn
    else if eq_bytes level (codes "error")
    then level_error
    else level_info

-- http.Server, its timeouts in seconds
pub record Server : Type 0 where
  pub addr : Bytes
  pub read_timeout : ℕ
  pub write_timeout : ℕ
  pub idle_timeout : ℕ

abbrev pub server_of : Config → Server
server_of cfg = record {
  addr = cfg.proxy_addr;
  read_timeout = 300;
  write_timeout = 300;
  idle_timeout = 120;
}

abbrev pub is_opened : Option Writer → Bool
is_opened none = false
is_opened (some w) = true

module _ (o : Outside) where
  abbrev pub writer_of : Config → Option Writer
  writer_of cfg = new_writer o.parse_dsn o.open_conn cfg.click_house_dsn cfg.click_house_db

  abbrev pub opens : Bytes → Bytes → Bool
  opens dsn db = is_opened (new_writer o.parse_dsn o.open_conn dsn db)

  abbrev pub PartsOf : Type 0
  PartsOf = Parts o.engine o.parse_url opens

  abbrev pub StartOf : Type 0
  StartOf = Start o.engine o.parse_url opens

  pub record Program : Type 0 where
    pub level : Level
    pub globals : Globals
    pub otel_shutdown : Shutdown
    pub writer : Writer
    pub parts : PartsOf
    pub handler : Handler
    pub server : Server

  -- How `main` gets on: it exits with an error, or panics, or has its server.
  pub data Boot : Type 0 where
    boot_configuration : LoadError → Boot
    boot_telemetry boot_no_writer : Boot
    boot_invalid_pattern : Bytes → Boot
    boot_panics : Boot
    serves : Program → Boot

  abbrev pub handler_of : Config → PartsOf → Handler
  handler_of cfg p =
      new_handler cfg.audit_project cfg.audit_branch (scrub o.engine p.scrubber)
        cfg.capture_requests p.router true

  unfoldable pub program_of : Config → Globals → Shutdown → Writer → PartsOf → Program
  unfolding new_handler scrub log_level_of
  program_of cfg globals shut w p = record {
    level = log_level_of cfg.log_level;
    globals = globals;
    otel_shutdown = shut;
    writer = w;
    parts = p;
    handler = handler_of cfg p;
    server = server_of cfg;
  }

  abbrev pub after_start : Config → Globals → Shutdown → Writer → StartOf → Boot
  after_start cfg globals shut w exits_no_writer = boot_no_writer
  after_start cfg globals shut w (exits_invalid_pattern p) = boot_invalid_pattern p
  after_start cfg globals shut w panics = boot_panics
  after_start cfg globals shut w (started p) = serves (program_of cfg globals shut w p)

  abbrev pub after_writer : Config → Globals → Shutdown → StartOf → Option Writer → Boot
  after_writer cfg globals shut s none = boot_no_writer
  after_writer cfg globals shut s (some w) = after_start cfg globals shut w s

  abbrev pub after_setup : Config → Globals × Option Shutdown → Boot
  after_setup cfg (globals, none) = boot_telemetry
  after_setup cfg (globals, some shut) =
      after_writer cfg globals shut (start o.engine o.parse_url opens cfg) (writer_of cfg)

  abbrev pub after_load : Environment → Loaded Config → Boot
  after_load env (err e) = boot_configuration e
  after_load env (ok cfg) = after_setup cfg (setup o.sdk env)

  unfoldable pub boot : Environment → Boot
  unfolding load setup start new_writer program_of
  boot env = after_load env (load o.parse_duration o.git env)
