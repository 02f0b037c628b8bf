-- ===== src/Tests/Boot.antt =====
-- A program that starts in a concrete environment and serves a request.
use codesteward_audit_proxy.Base.{
  ◌≡◌, refl, arith, true, false, none, some, List, [], if◌then◌else◌, length,
}
use mathlib.Core.List.{Memᴰ}
use codesteward_audit_proxy.Base.Bytes.{Bytes, codes, eq_bytes}
use codesteward_audit_proxy.Base.Int.{pos}
use codesteward_audit_proxy.Audit.Batcher.{Batcher, running, here}
use codesteward_audit_proxy.Audit.Scrubber.{nop_scrubber}
use codesteward_audit_proxy.Audit.Writer.{Row, audit_row}
use codesteward_audit_proxy.Config.{Config, Environment, second, config_of}
use codesteward_audit_proxy.Parser.Anthropic.Stream.{parse_anthropic}
use codesteward_audit_proxy.Proxy.Router.{
  detect_upstream, sap_match, host_match, request_host, path_match, Upstream, default_anthropic_url,
  default_openai_url, default_gemini_url,
}
use codesteward_audit_proxy.Proxy.Handler.{
  RequestMeta, extract_events, request_meta, anthropic_events, director,
}
use codesteward_audit_proxy.Proxy.Handler.Transport.{
  Emission, request_event, body_bytes, round_trip, finish_exchange, on_complete, emissions,
}
use codesteward_audit_proxy.Proxy.ReverseProxy.{forward, is_forwarded, upgrade_type}
use codesteward_audit_proxy.Proxy.Serve.{serve, give_answer, new_handler}
use codesteward_audit_proxy.Proxy.Serve.Laws.{accepted_by_proxy}
use codesteward_audit_proxy.System.{Sinks, emit_all, audits, unprocessed_of}
use codesteward_audit_proxy.System.Laws.{Stored, IsRecorded, emissions_of, meta}
use codesteward_audit_proxy.Telemetry.{nothing_to_stop}
use codesteward_audit_proxy.Main.{from_environment}
use codesteward_audit_proxy.Main.Boot.{Outside, PartsOf, Program, serves, program_of, boot}
use codesteward_audit_proxy.Main.Server.{default_version, reply_to}
use codesteward_audit_proxy.Main.Server.Laws.{ReplyOutcome, reply_to-ReplyOutcome}
use codesteward_audit_proxy.Main.Boot.Laws.{IsRunning, boot-Stored}
use codesteward_audit_proxy.Tests.Audit.{literal, yes, yes_always}
use codesteward_audit_proxy.Tests.Handler.{answer, no_text}
use codesteward_audit_proxy.Tests.Proxy.{host_only, request}
use codesteward_audit_proxy.Tests.Startup.{all_created}
use codesteward_audit_proxy.Tests.System.{yes_unprocessed}

abbrev outside : Outside
outside = record {
  engine = literal;
  parse_url = host_only;
  parse_duration = λ s. none;
  git = none;
  Options = Bytes;
  parse_dsn = λ dsn. some dsn;
  open_conn = λ opts. some yes;
  sdk = all_created;
}

-- Only the DSN is set.
abbrev dsn_only : Environment
dsn_only key = if eq_bytes key (codes "CLICKHOUSE_DSN") then some (codes "db") else none

abbrev default_batcher : {E : Type 0} → Batcher E
default_batcher = record {
  size = 100;
  capacity = 1000;
  ch = [];
  done = false;
  phase = running;
  batch = [];
  handed = [];
  accepted = [];
  dropped = [];
}

abbrev upstream_of : Bytes → Bytes → Upstream
upstream_of name host = record {
  name = name;
  url = record { scheme = codes "https"; host = host; path = []; query = [] };
}

abbrev default_parts : PartsOf outside
default_parts = record {
  scrubber = nop_scrubber;
  batcher = default_batcher;
  unprocessed_batcher = default_batcher;
  transport = record {
    proxy = from_environment;
    tls_handshake_timeout = 10;
    response_header_timeout = 30;
    force_attempt_http2 = true;
  };
  router = record {
    anthropic = upstream_of (codes "anthropic") default_anthropic_url;
    openai = upstream_of (codes "openai") default_openai_url;
    gemini = upstream_of (codes "gemini") default_gemini_url;
    sap_upstream = none;
    sap_auth_host = codes "ml.hana.ondemand.com";
  };
}

abbrev default_config : Config
default_config = config_of (λ s. none) none dsn_only true (pos 100) second

abbrev program : Program outside
program =
    program_of outside default_config (record { propagator = false; tracer = none; meter = none })
      nothing_to_stop (record { conn = yes; db = codes "audit" }) default_parts

program_serves : boot outside dsn_only ≡ serves program
unfolding boot program_of config_of
program_serves = refl

abbrev out_of : List Emission
out_of =
    emissions_of no_text (λ h. h) (λ r. some answer) program.handler (codes "u1") (codes "u2") 1 2
      none request

all_room :
    (accepted_by_proxy no_text
        (λ h. h)
        (λ r. some answer)
        program.handler
        (codes "u1")
        (codes "u2")
        1
        2
        none
        request
      ≡ true)
    × (length (audits out_of) ≡ 2)
    × (length (unprocessed_of out_of) ≡ 0)
unfolding serve round_trip director forward give_answer is_forwarded upgrade_type finish_exchange
    on_complete emissions extract_events eq_bytes request_meta detect_upstream sap_match host_match
    request_host path_match anthropic_events parse_anthropic program_of new_handler config_of
all_room = (refl, refl, refl)

abbrev meta_here : RequestMeta
meta_here =
    meta no_text (λ h. h) (λ r. some answer) program.handler (codes "u1") (codes "u2") 1 2 none
      request

abbrev sinks : Sinks
sinks = record { batcher = default_batcher; unprocessed = default_batcher }

is_running : IsRunning outside dsn_only program out_of sinks
unfolding program_of
is_running = record {
  reached = here;
  unprocessed_reached = here;
  active = refl;
  unprocessed_active = refl;
  not_stopped = refl;
  unprocessed_not_stopped = refl;
  room = omega (arith, all_room.1);
  unprocessed_room = omega (arith, all_room.2);
  accepts = yes_always;
  unprocessed_accepts = yes_unprocessed;
}

boot-Stored_example :
    (rows unprocessed_rows : List Row) × Stored program.writer.conn program.writer.db
      (emit_all out_of sinks)
      rows
      unprocessed_rows
    × Memᴰ (audit_row (request_event program.handler meta_here (body_bytes request.body))) rows
    × IsRecorded meta_here 2 answer rows unprocessed_rows
boot-Stored_example =
    boot-Stored outside dsn_only no_text (λ h. h) (λ r. some answer) (codes "u1") (codes "u2") 1 2
      none request sinks program_serves all_room.0 refl refl is_running

reply_to-ReplyOutcome_example :
    ReplyOutcome no_text
      (λ h. h)
      (λ r. some answer)
      outside
      program
      default_version
      (codes "u1")
      (codes "u2")
      1
      2
      none
      request
      (reply_to no_text
        (λ h. h)
        (λ r. some answer)
        default_version
        program.handler
        (codes "u1")
        (codes "u2")
        1
        2
        none
        request)
reply_to-ReplyOutcome_example =
    reply_to-ReplyOutcome no_text (λ h. h) (λ r. some answer) outside program default_version
      (codes "u1") (codes "u2") 1 2 none request dsn_only program_serves
