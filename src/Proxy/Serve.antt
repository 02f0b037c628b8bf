-- ===== src/Proxy/Serve.antt =====
-- internal/proxy/handler.go: NewHandler, ServeHTTP and errorHandler. ServeHTTP is the reverse proxy
-- with the director, the audit transport and the error handler.
pub mod Laws
use codesteward_audit_proxy.Base.{ℕ, Bool, Option, none, some, List, [], ◌∷◌, ◌++◌, if◌then◌else◌}
use codesteward_audit_proxy.Base.Bytes.{Bytes, codes}
use codesteward_audit_proxy.Base.Int.{ℤ, pos, eq_ℤ}
use codesteward_audit_proxy.Parser.Types.{ParseError}
use codesteward_audit_proxy.Proxy.Http.{Header, Request, Response}
use codesteward_audit_proxy.Proxy.Router.{Router}
use codesteward_audit_proxy.Proxy.Handler.{Handler, director}
use codesteward_audit_proxy.Proxy.Handler.Transport.{Emission, Exchange, Metrics, round_trip}
use codesteward_audit_proxy.Proxy.ReverseProxy.{forward, is_forwarded, remove_hop_by_hop}

-- NewHandler, less the meter's counters and the reverse proxy, which Serve is about.
unfoldable pub new_handler : Bytes → Bytes → (Bytes → Bytes) → Bool → Router → Bool → Handler
new_handler project branch scrub capture_requests router unprocessed = record {
  project = project;
  branch = branch;
  scrub = scrub;
  capture_requests = capture_requests;
  router = router;
  unprocessed = unprocessed;
}

-- errorHandler: what http.Error writes.
abbrev pub bad_gateway : Response
bad_gateway = record {
  status_code = pos 502;
  header =
      (codes "Content-Type", codes "text/plain; charset=utf-8")
      ∷ (codes "X-Content-Type-Options", codes "nosniff")
      ∷ [];
  body = codes "bad gateway\n";
}

-- What the agent gets, and what goes to the batchers and the counters.
pub record Served : Type 0 where
  pub answer : Response
  pub emissions : List Emission
  pub metrics : Option Metrics

abbrev pub switching_protocols : ℤ
switching_protocols = pos 101

-- The reverse proxy on the outcome of the transport. It cannot switch protocols, since the tapped
-- body cannot be written to; the body is then neither read nor closed.
unfoldable pub give_answer : Exchange → Option Response → Served
unfolding remove_hop_by_hop
give_answer x none = record {
  answer = bad_gateway;
  emissions = x.request_emissions;
  metrics = none;
}
give_answer x (some resp) =
    if eq_ℤ resp.status_code switching_protocols
    then record { answer = bad_gateway; emissions = x.request_emissions; metrics = none }
    else record {
      answer = record resp { header = remove_hop_by_hop resp.header };
      emissions = x.request_emissions ++ x.response_emissions;
      metrics = x.metrics;
    }

-- ServeHTTP, for an agent that takes the whole answer: the generated identifiers, the time of the
-- request and of the answer, and the client's address are arguments.
module _ (error_text : ParseError → Bytes) where
  unfoldable pub serve :
      (Header → Header)
      → (Request → Option Response)
      → Handler
      → Bytes
      → Bytes
      → ℕ
      → ℕ
      → Option Bytes
      → Request
      → Served
  unfolding give_answer forward is_forwarded director round_trip
  serve inject inner h session_uuid turn_uuid now ts client_ip req =
      let directed = director h session_uuid turn_uuid now req in
      let x =
        round_trip error_text inject inner h (some directed.1) ts
          (forward client_ip req.header directed.0) in
      if is_forwarded directed.0.header
      then give_answer x x.response
      else record { answer = bad_gateway; emissions = []; metrics = none }
