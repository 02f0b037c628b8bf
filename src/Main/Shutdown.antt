-- ===== src/Main/Shutdown.antt =====
-- The end of `main` in cmd/proxy/main.go, from the signal on, beside the goroutines of the two
-- batchers. A batch that is handed over while the connection is open is written; once the deferred
-- Close has run, a write fails and its batch is discarded.
pub mod Race
use codesteward_audit_proxy.Base.{
  Bool, true, false, if◌then◌else◌, Option, none, some, List, [], ◌∷◌, ◌>>=◌,
}
use codesteward_audit_proxy.Audit.Event.{AuditEvent, UnprocessedEvent}
use codesteward_audit_proxy.Audit.Batcher.{Batcher, Action, stop, step}

pub data MainStep : Type 0 where
  shuts_server stops_batcher stops_unprocessed stops_telemetry closes_writer : MainStep

-- The calls behind the signal, in their order; `defer writer.Close()` is the last.
abbrev pub shutdown_steps : List MainStep
shutdown_steps =
    shuts_server ∷ stops_batcher ∷ stops_unprocessed ∷ stops_telemetry ∷ closes_writer ∷ []

-- `pending` are the steps that main has still to take; the process ends with the last of them.
-- `written` are the batches that were handed over before the connection was closed.
pub record Process : Type 0 where
  pub pending : List MainStep
  pub batcher : Batcher AuditEvent
  pub unprocessed : Batcher UnprocessedEvent
  pub written : Option (List (List AuditEvent) × List (List UnprocessedEvent))

unfoldable pub main_step : MainStep → Process → Option Process
unfolding stop
main_step shuts_server p = some p
main_step stops_batcher p = stop p.batcher >>= λ b. some (record p { batcher = b })
main_step stops_unprocessed p = stop p.unprocessed >>= λ u. some (record p { unprocessed = u })
main_step stops_telemetry p = some p
main_step closes_writer p =
    some (record p { written = some (p.batcher.handed, p.unprocessed.handed) })

-- How ListenAndServe comes back in its goroutine.
pub data Listened : Type 0 where
  no_error server_closed listen_failed : Listened

-- Whether the goroutine ends the process: os.Exit runs no deferred call.
abbrev pub exits_process : Listened → Bool
exits_process no_error = false
exits_process server_closed = false
exits_process listen_failed = true

-- Whose turn it is.
pub data Turn : Type 0 where
  listener_ends : Listened → Turn
  main_acts : Turn
  batcher_acts : Action AuditEvent → Turn
  unprocessed_acts : Action UnprocessedEvent → Turn

-- The process ends at once, with what has been handed over.
abbrev pub exit_now : Process → Process
exit_now p = record p { pending = []; written = some (p.batcher.handed, p.unprocessed.handed) }

pub take_turn : Turn → List MainStep → Process → Option Process
unfolding main_step
take_turn t [] p = none
take_turn (listener_ends l) (s ∷ steps) p = some (if exits_process l then exit_now p else p)
take_turn main_acts (s ∷ steps) p = main_step s (record p { pending = steps })
take_turn (batcher_acts a) (s ∷ steps) p = step a p.batcher >>= λ b. some (record p { batcher = b })
take_turn (unprocessed_acts a) (s ∷ steps) p =
    step a p.unprocessed >>= λ u. some (record p { unprocessed = u })

unfoldable pub schedule : List Turn → Process → Option Process
unfolding take_turn
schedule [] p = some p
schedule (t ∷ ts) p = take_turn t p.pending p >>= schedule ts

-- The process when the signal comes.
abbrev pub at_signal : Batcher AuditEvent → Batcher UnprocessedEvent → Process
at_signal b u = record { pending = shutdown_steps; batcher = b; unprocessed = u; written = none }

-- The schedule in which main does not let the goroutines act.
abbrev pub main_only : List Turn
main_only = main_acts ∷ main_acts ∷ main_acts ∷ main_acts ∷ main_acts ∷ []
