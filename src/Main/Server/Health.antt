-- ===== src/Main/Server/Health.antt =====
-- The health check's answer, read as JSON.
use codesteward_audit_proxy.Base.{
  ℕ, ◌∷◌, ◌++◌, Option, some, ◌≡◌, refl, sym, ap, ◌∙◌, arith, append_assoc,
}
use codesteward_audit_proxy.Base.Bytes.{Bytes, codes}
use codesteward_audit_proxy.Base.Int.{pos}
use codesteward_audit_proxy.Json.Value.{Value, string, object, no_members, member}
use codesteward_audit_proxy.Json.Quote.{quote, Ascii}
use codesteward_audit_proxy.Json.Text.{unquote}
use codesteward_audit_proxy.Json.Text.Quoted.{unquote-quote}
use codesteward_audit_proxy.Json.Scan.{scan}
use codesteward_audit_proxy.Json.Scan.Grammar.{
  IsText, Document, text, structure, no_fields, field, write, meaning, depth,
}
use codesteward_audit_proxy.Json.Scan.Documents.{scan-write}
use codesteward_audit_proxy.Json.Scan.Quoted.{quote-IsText, quoted}
use codesteward_audit_proxy.Parser.Types.{ParseError}
use codesteward_audit_proxy.Proxy.Http.{Header, Request, Response}
use codesteward_audit_proxy.Proxy.Handler.{Handler}
use codesteward_audit_proxy.Proxy.ServeMux.{find_handler}
use codesteward_audit_proxy.Main.Server.{health_body, health_answer, healthy, reply_to}

-- The object that a client reads: a status and the version, each with its exact bytes.
unfoldable pub health_object : Bytes → Value
health_object version = object (
    member (codes "status") (codes "\"ok\"") (string (codes "ok"))
      (member (codes "version") (b'"' ∷ quote version ++ codes "\"") (string version) no_members))

status_text : IsText (codes "status")
unfolding quote
status_text = quote-IsText (codes "status") (omega arith)

ok_text : IsText (codes "ok")
unfolding quote
ok_text = quote-IsText (codes "ok") (omega arith)

version_text : IsText (codes "version")
unfolding quote
version_text = quote-IsText (codes "version") (omega arith)

health_document : (version : Bytes) → Ascii version → Document
health_document version h = structure (
    field (codes "status") status_text (text (codes "ok") ok_text)
      (field (codes "version") version_text (quoted version h) no_fields))

health_body-write :
    (version : Bytes) (h : Ascii version)
    → health_body version ≡ write (health_document version h) ++ codes "\n"
unfolding health_body write health_document
health_body-write version h =
    ap (λ t. codes "{\"status\":\"ok\",\"version\":\"" ++ t)
      (sym (
        append_assoc (quote version ++ codes "\"") (codes "}") (codes "\n")
        ∙ append_assoc (quote version) (codes "\"") (codes "}\n")))

meaning-health_document :
    (version : Bytes) (h : Ascii version)
    → meaning (health_document version h) ≡ health_object version
unfolding meaning write health_object unquote health_document
meaning-health_document version h =
    ap
      (λ t. object (
        member (codes "status") (codes "\"ok\"") (string (codes "ok"))
          (member (codes "version") (b'"' ∷ quote version ++ codes "\"") (string t) no_members)))
      (unquote-quote version h)

pub scan-health_body :
    (version : Bytes) → Ascii version → scan (health_body version) ≡ some (health_object version)
unfolding depth health_document
scan-health_body version h =
    ap scan (health_body-write version h)
    ∙ scan-write (health_document version h) (codes "\n") (omega arith) (refl, tt)
    ∙ ap some (meaning-health_document version h)

-- GET /healthz is answered with the status 200 and a body that a JSON decoder reads as an object of
-- a status ok and the program's version, whatever the handler is, if the version is ASCII.
pub reply_to-version :
    (error_text : ParseError → Bytes) (inject : Header → Header) (inner : Request → Option Response)
    (version : Bytes) (h : Handler) (session_uuid turn_uuid : Bytes) (now ts : ℕ)
    (client_ip : Option Bytes) (req : Request)
    → req.method ≡ codes "GET"
    → req.url.path ≡ codes "/healthz"
    → Ascii version
    → (answer : Response) × (reply_to error_text inject inner version h session_uuid turn_uuid now
          ts client_ip req
        ≡ healthy answer)
      × (answer.status_code ≡ pos 200)
      × (scan answer.body ≡ some (health_object version))
unfolding reply_to find_handler health_answer
reply_to-version error_text inject inner version h session_uuid turn_uuid now ts client_ip req get
      path ascii =
    (health_answer version (codes "GET"), rw (get, path) refl, refl, scan-health_body version ascii)
