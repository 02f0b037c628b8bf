-- ===== src/Main/Server/Laws.antt =====
-- What becomes of any request that reaches the server.
use codesteward_audit_proxy.Base.{ℕ, ◌≡◌, refl, sym, ap, ◌⊎◌, false, Option}
use codesteward_audit_proxy.Base.Bytes.{Bytes, codes}
use codesteward_audit_proxy.Base.Int.{pos}
use codesteward_audit_proxy.Config.{Environment}
use codesteward_audit_proxy.Parser.Types.{ParseError}
use codesteward_audit_proxy.Proxy.Http.{Header, Request, Response}
use codesteward_audit_proxy.Proxy.Serve.{Served, new_handler}
use codesteward_audit_proxy.Proxy.Serve.Laws.{ServeOutcome, serve-ServeOutcome}
use codesteward_audit_proxy.Proxy.ServeMux.{Route, clean_path, is_health}
use codesteward_audit_proxy.Proxy.ServeMux.Laws.{
  IsClean, IsClean-clean_path, RouteOutcome, health, handled, redirect, find_handler-RouteOutcome,
  clean_path-clean_path,
}
use codesteward_audit_proxy.Main.Boot.{Outside, Program, serves, boot}
use codesteward_audit_proxy.Main.Boot.Laws.{boot-Booted}
use codesteward_audit_proxy.Main.Server.{
  health_answer, Reply, healthy, redirected, proxied, with_query, route_reply, reply_to,
}

module _ (error_text : ParseError → Bytes) (inject : Header → Header)
    (inner : Request → Option Response) (o : Outside) (prog : Program o) (version : Bytes)
    (session_uuid turn_uuid : Bytes) (now ts : ℕ) (client_ip : Option Bytes) (req : Request) where
  -- The ways in which a request is answered.
  pub data ReplyOutcome : Reply → Type 0 where
    health_check :
        req.url.path ≡ codes "/healthz"
        → (req.method ≡ codes "GET") ⊎ (req.method ≡ codes "HEAD")
        → ReplyOutcome (healthy (health_answer version req.method))
    moved_to :
        (path : Bytes)
        → path ≡ clean_path req.url.path
        → ¬ IsClean req.url.path
        → IsClean path
        → clean_path path ≡ path
        → ReplyOutcome (redirected (pos 301) (with_query path req.url.query))
    audited :
        {served : Served}
        → IsClean req.url.path
        → is_health req.method req.url.path ≡ false
        → ServeOutcome error_text inject inner prog.handler session_uuid turn_uuid now ts client_ip
            req served
        → ReplyOutcome (proxied served)

  route_reply-ReplyOutcome :
      {served : Served} {r : Route}
      → ServeOutcome error_text inject inner prog.handler session_uuid turn_uuid now ts client_ip
          req served
      → RouteOutcome req.method req.url.path r
      → ReplyOutcome (route_reply version req served r)
  route_reply-ReplyOutcome served (health path method) = health_check path method
  route_reply-ReplyOutcome served (handled clean other) = audited clean other served
  route_reply-ReplyOutcome served (redirect other clean) =
      moved_to (clean_path req.url.path) refl (λ c. other (sym (IsClean-clean_path c))) clean
        (clean_path-clean_path req.url.path)

  -- A program that has its server answers a request in one of three ways. GET and HEAD of /healthz get
  -- the health check's answer. A path that is not clean gets a redirection to its clean form, which is
  -- not redirected again. Any other request, its path then clean, ends as serving it does, with its
  -- outcome and its records.
  pub reply_to-ReplyOutcome :
      (env : Environment)
      → boot o env ≡ serves prog
      → ReplyOutcome (
          reply_to error_text inject inner version prog.handler session_uuid turn_uuid now ts
            client_ip req)
  unfolding reply_to new_handler
  reply_to-ReplyOutcome env booted =
      route_reply-ReplyOutcome
        (serve-ServeOutcome error_text inject inner prog.handler session_uuid turn_uuid now ts
          client_ip req (ap (λ h. h.unprocessed) (boot-Booted o env booted).handled))
        (find_handler-RouteOutcome req.method req.url.path)
