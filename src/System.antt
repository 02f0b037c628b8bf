-- ===== src/System.antt =====
-- The proxy with its two batchers: the calls of Add in internal/proxy/handler.go.
pub mod Laws
use codesteward_audit_proxy.Base.{List, [], ◌∷◌}
use codesteward_audit_proxy.Audit.Event.{AuditEvent, UnprocessedEvent}
use codesteward_audit_proxy.Audit.Batcher.{Batcher, add}
use codesteward_audit_proxy.Proxy.Handler.Transport.{Emission, to_audit, to_unprocessed}

pub record Sinks : Type 0 where
  pub batcher : Batcher AuditEvent
  pub unprocessed : Batcher UnprocessedEvent

-- `meta.batcher.Add` and `meta.unprocessed.Add`
unfoldable pub emit : Emission → Sinks → Sinks
unfolding add
emit (to_audit e) s = record s { batcher = add e s.batcher }
emit (to_unprocessed u) s = record s { unprocessed = add u s.unprocessed }

unfoldable pub emit_all : List Emission → Sinks → Sinks
unfolding emit
emit_all [] s = s
emit_all (x ∷ xs) s = emit_all xs (emit x s)

abbrev pub audits : List Emission → List AuditEvent
audits [] = []
audits (to_audit e ∷ xs) = e ∷ audits xs
audits (to_unprocessed u ∷ xs) = audits xs

abbrev pub unprocessed_of : List Emission → List UnprocessedEvent
unprocessed_of [] = []
unprocessed_of (to_audit e ∷ xs) = unprocessed_of xs
unprocessed_of (to_unprocessed u ∷ xs) = u ∷ unprocessed_of xs
