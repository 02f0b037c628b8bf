-- ===== src/Tests/System.antt =====
-- Requests that are served, the two tables behind them, and the end of the process.
use codesteward_audit_proxy.Base.{◌≡◌, refl, none, some, List, [], ◌∷◌, concat, All}
use codesteward_audit_proxy.Base.Bytes.{codes}
use codesteward_audit_proxy.Base.Int.{pos, negsuc}
use codesteward_audit_proxy.Audit.Event.{AuditEvent, UnprocessedEvent}
use codesteward_audit_proxy.Audit.Batcher.Invariant.{Reach-accounted}
use codesteward_audit_proxy.Audit.Writer.{audit_row, unprocessed_row}
use codesteward_audit_proxy.Audit.Writer.Laws.{AlwaysAccepts}
use codesteward_audit_proxy.Audit.Writer.Bounds.{StoresCount, FitsCell, rows_in_range}
use codesteward_audit_proxy.Proxy.Serve.{serve}
use codesteward_audit_proxy.Proxy.Serve.Laws.{ServeOutcome, serve-ServeOutcome}
use codesteward_audit_proxy.Main.Shutdown.{at_signal, main_only}
use codesteward_audit_proxy.Main.Shutdown.Race.{EndsWith, with_drains, shutdown-EndsWith}
use codesteward_audit_proxy.Tests.Audit.{made_new, yes, event_of, seen, open_of, open_of_reached}
use codesteward_audit_proxy.Tests.Handler.{handler, answer, no_text}
use codesteward_audit_proxy.Tests.Proxy.{request}

serve-ServeOutcome_example :
    ServeOutcome no_text
      (λ h. h)
      (λ r. some answer)
      handler
      (codes "u1")
      (codes "u2")
      1
      2
      none
      request
      (serve no_text (λ h. h) (λ r. some answer) handler (codes "u1") (codes "u2") 1 2 none request)
serve-ServeOutcome_example =
    serve-ServeOutcome no_text (λ h. h) (λ r. some answer) handler (codes "u1") (codes "u2") 1 2
      none request refl

shutdown-EndsWith_example :
    EndsWith main_only (at_signal (open_of (event_of "a") (event_of "b")) (open_of seen seen)) [] []
    × ((hs : List (List AuditEvent)) × (us : List (List UnprocessedEvent)) × EndsWith
          (with_drains (open_of (event_of "a") (event_of "b")) (open_of seen seen))
          (at_signal (open_of (event_of "a") (event_of "b")) (open_of seen seen))
          hs
          us
        × (concat hs ≡ event_of "a" ∷ event_of "b" ∷ [])
        × (concat us ≡ seen ∷ seen ∷ []))
shutdown-EndsWith_example =
    shutdown-EndsWith (open_of (event_of "a") (event_of "b")) (open_of seen seen) (record {
      batcher_Inv =
          Reach-accounted 100 (pos 2) (pos 5) made_new
            (open_of_reached (event_of "a") (event_of "b"));
      unprocessed_Inv = Reach-accounted 100 (pos 2) (pos 5) made_new (open_of_reached seen seen);
      active = refl;
      unprocessed_active = refl;
      not_stopped = refl;
      unprocessed_not_stopped = refl;
    })

pub yes_unprocessed : AlwaysAccepts yes unprocessed_row
yes_unprocessed = record { prepares = λ q. refl; appends = λ rows r. refl; sends = λ rows. refl }

-- More input tokens than a column of 32 bits holds, and a negative number of output tokens.
abbrev counted : AuditEvent
counted = record (event_of "a") { input_tokens = pos 5000000000; output_tokens = negsuc 0 }

rows_in_range_example :
    All FitsCell (audit_row counted)
    × All FitsCell (unprocessed_row seen)
    × StoresCount "input_tokens" (pos 5000000000) (audit_row counted)
    × StoresCount "output_tokens" (negsuc 0) (audit_row counted)
    × StoresCount "cache_read_tokens" (pos 0) (audit_row counted)
    × StoresCount "cache_write_tokens" (pos 0) (audit_row counted)
rows_in_range_example = rows_in_range counted seen
