-- ===== src/Main/Boot/Laws.antt =====
-- What a program that has its server is made of, and what it keeps of the requests that it serves.
use codesteward_audit_proxy.Base.{
  ℕ, ◌+◌, ◌≤◌, ◌≡◌, refl, ap, subst, true, false, Option, none, some, List, length,
}
use mathlib.Core.List.{Memᴰ}
use codesteward_audit_proxy.Base.Bytes.{Bytes}
use codesteward_audit_proxy.Base.Int.{eq_ℤ}
use codesteward_audit_proxy.Audit.Batcher.{running, Reach}
use codesteward_audit_proxy.Audit.Writer.{Row, audit_row, unprocessed_row}
use codesteward_audit_proxy.Audit.Writer.Open.{Writer}
use codesteward_audit_proxy.Audit.Writer.Laws.{AlwaysAccepts}
use codesteward_audit_proxy.Config.{Config, Loaded, ok, err, Environment, load}
use codesteward_audit_proxy.Parser.Types.{ParseError}
use codesteward_audit_proxy.Proxy.Http.{Header, Request, Response}
use codesteward_audit_proxy.Proxy.Handler.Transport.{Emission, request_event, body_bytes}
use codesteward_audit_proxy.Proxy.Serve.{new_handler, switching_protocols}
use codesteward_audit_proxy.Proxy.Serve.Laws.{sent_of, accepted_by_proxy}
use codesteward_audit_proxy.System.{Sinks, emit_all, audits, unprocessed_of}
use codesteward_audit_proxy.System.Laws.{Stored, IsRecorded, emissions_of, meta, serve-Stored}
use codesteward_audit_proxy.Telemetry.{Globals, Shutdown, setup}
use codesteward_audit_proxy.Main.{exits_no_writer, exits_invalid_pattern, panics, started, start}
use codesteward_audit_proxy.Main.{audit_channel_limit, unprocessed_channel_limit}
use codesteward_audit_proxy.Main.Laws.{Assembled, OnStarted, start-Assembled}
use codesteward_audit_proxy.Main.Boot.{
  Outside, writer_of, opens, StartOf, Program, Boot, serves, handler_of, program_of, after_start,
  after_writer, after_setup, after_load, boot,
}

module _ (o : Outside) (env : Environment) where
  -- The program's parts are those of the configuration that the environment gives.
  pub record Booted (prog : Program o) : Type 0 where
    pub cfg : Config
    pub loaded : load o.parse_duration o.git env ≡ ok cfg
    pub set_up : setup o.sdk env ≡ (prog.globals, some prog.otel_shutdown)
    pub opened : writer_of o cfg ≡ some prog.writer
    pub assembled : Assembled o.engine o.parse_url (opens o) cfg prog.parts
    pub handled : prog.handler ≡ handler_of o cfg prog.parts

  abbrev OnServes : (Program o → Type 0) → Boot o → Type 0
  OnServes P (serves prog) = P prog
  OnServes P _ = Unit

  after_start-Booted :
      (cfg : Config) (globals : Globals) (shut : Shutdown) (w : Writer) (s : StartOf o)
      → load o.parse_duration o.git env ≡ ok cfg
      → setup o.sdk env ≡ (globals, some shut)
      → writer_of o cfg ≡ some w
      → OnStarted o.engine o.parse_url (opens o) (Assembled o.engine o.parse_url (opens o) cfg) s
      → OnServes Booted (after_start o cfg globals shut w s)
  unfolding program_of
  after_start-Booted cfg globals shut w exits_no_writer el es ew a = tt
  after_start-Booted cfg globals shut w (exits_invalid_pattern p) el es ew a = tt
  after_start-Booted cfg globals shut w panics el es ew a = tt
  after_start-Booted cfg globals shut w (started p) el es ew a = record {
    cfg = cfg;
    loaded = el;
    set_up = es;
    opened = ew;
    assembled = a;
    handled = refl;
  }

  after_writer-Booted :
      (cfg : Config) (globals : Globals) (shut : Shutdown) (w : Option Writer)
      → load o.parse_duration o.git env ≡ ok cfg
      → setup o.sdk env ≡ (globals, some shut)
      → writer_of o cfg ≡ w
      → OnServes Booted
          (after_writer o cfg globals shut (start o.engine o.parse_url (opens o) cfg) w)
  after_writer-Booted cfg globals shut none el es ew = tt
  after_writer-Booted cfg globals shut (some w) el es ew =
      after_start-Booted cfg globals shut w (start o.engine o.parse_url (opens o) cfg) el es ew
        (start-Assembled o.engine o.parse_url (opens o) cfg)

  after_setup-Booted :
      (cfg : Config) (made : Globals × Option Shutdown)
      → load o.parse_duration o.git env ≡ ok cfg
      → setup o.sdk env ≡ made
      → OnServes Booted (after_setup o cfg made)
  after_setup-Booted cfg (globals, none) el es = tt
  after_setup-Booted cfg (globals, some shut) el es =
      after_writer-Booted cfg globals shut (writer_of o cfg) el es refl

  after_load-Booted :
      (l : Loaded Config)
      → load o.parse_duration o.git env ≡ l
      → OnServes Booted (after_load o env l)
  after_load-Booted (err e) el = tt
  after_load-Booted (ok cfg) el = after_setup-Booted cfg (setup o.sdk env) el refl

  pub boot-Booted : {prog : Program o} → boot o env ≡ serves prog → Booted prog
  unfolding boot
  boot-Booted e =
      subst (OnServes Booted) e (after_load-Booted (load o.parse_duration o.git env) refl)

  -- The batchers of a running program, as its threads left them, neither stopped nor returned, with
  -- room for these emissions; and its driver accepts every call.
  pub record IsRunning (prog : Program o) (out : List Emission) (s : Sinks) : Type 0 where
    pub reached : Reach prog.parts.batcher s.batcher
    pub unprocessed_reached : Reach prog.parts.unprocessed_batcher s.unprocessed
    pub active : s.batcher.phase ≡ running
    pub unprocessed_active : s.unprocessed.phase ≡ running
    pub not_stopped : s.batcher.done ≡ false
    pub unprocessed_not_stopped : s.unprocessed.done ≡ false
    pub room : length s.batcher.ch + length (audits out) ≤ s.batcher.capacity
    pub unprocessed_room :
        length s.unprocessed.ch + length (unprocessed_of out) ≤ s.unprocessed.capacity
    pub accepts : AlwaysAccepts prog.writer.conn audit_row
    pub unprocessed_accepts : AlwaysAccepts prog.writer.conn unprocessed_row

  -- From the environment to the tables: once the program has its server, a request that it forwards
  -- and the upstream answers, without a switch of protocols, is on record when both batchers have been
  -- shut down. The table of audit events has the row of the request, and one of the two tables has a
  -- row with the whole response. It holds in whatever state the threads have brought the batchers to,
  -- where they are not stopped and have room for the emissions and the driver accepts every call.
  pub boot-Stored :
      {prog : Program o} (error_text : ParseError → Bytes) (inject : Header → Header)
      (inner : Request → Option Response) (session_uuid turn_uuid : Bytes) (now ts : ℕ)
      (client_ip : Option Bytes) (req : Request) (s : Sinks) {resp : Response}
      → boot o env ≡ serves prog
      → accepted_by_proxy error_text inject inner prog.handler session_uuid turn_uuid now ts
          client_ip req
        ≡ true
      → inner
          (sent_of error_text inject inner prog.handler session_uuid turn_uuid now ts client_ip req)
        ≡ some resp
      → eq_ℤ resp.status_code switching_protocols ≡ false
      → IsRunning prog
          (emissions_of error_text inject inner prog.handler session_uuid turn_uuid now ts client_ip
            req)
          s
      → (rows unprocessed_rows : List Row) × Stored prog.writer.conn prog.writer.db
          (emit_all
            (emissions_of error_text inject inner prog.handler session_uuid turn_uuid now ts
              client_ip req)
            s)
          rows
          unprocessed_rows
        × Memᴰ
            (audit_row (
              request_event prog.handler
                (meta error_text inject inner prog.handler session_uuid turn_uuid now ts client_ip
                  req)
                (body_bytes req.body)))
            rows
        × IsRecorded
            (meta error_text inject inner prog.handler session_uuid turn_uuid now ts client_ip req)
            ts
            resp
            rows
            unprocessed_rows
  unfolding new_handler
  boot-Stored {prog} error_text inject inner session_uuid turn_uuid now ts client_ip req s booted
        ok' e plain r =
      let b = boot-Booted booted in
      serve-Stored error_text inject inner prog.handler session_uuid turn_uuid now ts client_ip req
        b.cfg.batch_size b.cfg.batch_interval prog.writer.conn prog.writer.db s
        (ap (λ h. h.unprocessed) b.handled) ok' e plain
        (record {
          made = prog.parts.batcher;
          unprocessed_made = prog.parts.unprocessed_batcher;
          most = audit_channel_limit;
          unprocessed_most = unprocessed_channel_limit;
          new_made = b.assembled.batcher_made;
          new_unprocessed = b.assembled.unprocessed_made;
          reached = r.reached;
          unprocessed_reached = r.unprocessed_reached;
          active = r.active;
          unprocessed_active = r.unprocessed_active;
          not_stopped = r.not_stopped;
          unprocessed_not_stopped = r.unprocessed_not_stopped;
          room = r.room;
          unprocessed_room = r.unprocessed_room;
          accepts = r.accepts;
          unprocessed_accepts = r.unprocessed_accepts;
        })
