-- ===== src/Main/Server.antt =====
-- The requests that reach the server of cmd/proxy/main.go: its mux with the health check and the
-- proxy's handler.
pub mod Laws
pub mod Health
use codesteward_audit_proxy.Base.{ℕ, Option, [], ◌∷◌, ◌++◌, if◌then◌else◌, is_nil, ◌≡◌, refl}
use codesteward_audit_proxy.Base.Bytes.{Bytes, codes, eq_bytes}
use codesteward_audit_proxy.Base.Int.{ℤ, pos}
use codesteward_audit_proxy.Json.Quote.{quote}
use codesteward_audit_proxy.Parser.Types.{ParseError}
use codesteward_audit_proxy.Proxy.Http.{Header, Request, Response}
use codesteward_audit_proxy.Proxy.Handler.{Handler}
use codesteward_audit_proxy.Proxy.Serve.{Served, serve}
use codesteward_audit_proxy.Proxy.ServeMux.{Route, to_health, to_handler, moved, find_handler}

abbrev pub default_version : Bytes
default_version = codes "dev"

-- The object that the health check encodes, its keys sorted and a newline behind it.
unfoldable pub health_body : Bytes → Bytes
unfolding quote
health_body version = codes "{\"status\":\"ok\",\"version\":\"" ++ (quote version ++ codes "\"}\n")

-- The answer to GET; to HEAD its body is not sent.
unfoldable pub health_answer : Bytes → Bytes → Response
unfolding health_body eq_bytes
health_answer version method = record {
  status_code = pos 200;
  header = (codes "Content-Type", codes "application/json") ∷ [];
  body = if eq_bytes method (codes "HEAD") then [] else health_body version;
}

-- What a client gets: the health check's answer, a redirection with its location, or the proxy's
-- answer.
pub data Reply : Type 0 where
  healthy : Response → Reply
  redirected : ℤ → Bytes → Reply
  proxied : Served → Reply

abbrev pub with_query : Bytes → Bytes → Bytes
with_query path query = if is_nil query then path else path ++ b'?' ∷ query

abbrev route_reply : Bytes → Request → Served → Route → Reply
route_reply version req served to_health = healthy (health_answer version req.method)
route_reply version req served (moved path) = redirected (pos 301) (with_query path req.url.query)
route_reply version req served to_handler = proxied served

module _ (error_text : ParseError → Bytes) where
  unfoldable pub reply_to :
      (Header → Header)
      → (Request → Option Response)
      → Bytes
      → Handler
      → Bytes
      → Bytes
      → ℕ
      → ℕ
      → Option Bytes
      → Request
      → Reply
  unfolding find_handler health_answer
  reply_to inject inner version h session_uuid turn_uuid now ts client_ip req =
      route_reply version req
        (serve error_text inject inner h session_uuid turn_uuid now ts client_ip req)
        (find_handler req.method req.url.path)

escaped_version :
    health_body (codes "1.0<\"x\">")
    ≡ codes "{\"status\":\"ok\",\"version\":\"1.0\\u003c\\\"x\\\"\\u003e\"}\n"
unfolding health_body
escaped_version = refl
