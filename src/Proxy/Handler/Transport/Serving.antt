-- ===== src/Proxy/Handler/Transport/Serving.antt =====
-- The director and the audit transport one behind the other, as the reverse proxy calls them.
use codesteward_audit_proxy.Base.{◌≡◌, ◌⊎◌, false, is_nil}
use codesteward_audit_proxy.Base.Bytes.{Bytes}
use codesteward_audit_proxy.Proxy.Http.{Header, header_get}
use codesteward_audit_proxy.Proxy.Handler.{Handler, RequestMeta}

-- What the sender of a request says of itself in its internal headers, as the metadata keeps it.
pub record Identified (h : Handler) (header : Header) (session_uuid : Bytes) (meta : RequestMeta)
    : Type 0 where
  pub session_named : is_nil meta.session_id ≡ false
  pub session :
      (meta.session_id ≡ header_get header "X-Audit-Session-ID")
      ⊎ (meta.session_id ≡ header_get header "X-Session-ID")
      ⊎ (meta.session_id ≡ session_uuid)
  pub user : meta.user ≡ header_get header "X-Audit-User"
  pub team : meta.team ≡ header_get header "X-Audit-Team"
  pub project : (meta.project ≡ header_get header "X-Audit-Project") ⊎ (meta.project ≡ h.project)
  pub branch : (meta.branch ≡ header_get header "X-Audit-Branch") ⊎ (meta.branch ≡ h.branch)
