-- ===== src/Proxy/Handler/Transport/Headers.antt =====
-- What the upstream gets to see of a request's header.
use codesteward_audit_proxy.Base.{String, ◌≡◌, refl, ◌∙◌, false, List, [], ◌∷◌, All}
use codesteward_audit_proxy.Base.Bytes.{Bytes, codes, eq_bytes}
use codesteward_audit_proxy.Proxy.Http.{
  canonical_key, Header, find_value, header_get, header_del, Request, RequestBody, no_body,
  readable, unreadable,
}
use codesteward_audit_proxy.Proxy.Http.Lookup.{
  find_value-remove_self, find_value-remove_ne, find_value-remove_missing,
}
use codesteward_audit_proxy.Proxy.Handler.Transport.{
  internal_headers, strip_headers, outgoing, restored_body, body_bytes,
}

strip_headers_missing :
    (keys : List String) (j : Bytes) (h : Header)
    → find_value j h ≡ []
    → find_value j (strip_headers keys h) ≡ []
unfolding strip_headers header_del
strip_headers_missing [] j h missing = missing
strip_headers_missing (k ∷ keys) j h missing =
    strip_headers_missing keys j (header_del h k)
      (find_value-remove_missing (canonical_key (codes k)) j h missing)

strip_headers_gone :
    (keys : List String) (h : Header) → All (λ key. header_get (strip_headers keys h) key ≡ []) keys
unfolding strip_headers header_del header_get
strip_headers_gone [] h = tt
strip_headers_gone (k ∷ keys) h = (
  strip_headers_missing keys (canonical_key (codes k)) (header_del h k)
      (find_value-remove_self (canonical_key (codes k)) h),
  strip_headers_gone keys (header_del h k),
)

strip_headers_kept :
    (keys : List String) (j : Bytes) (h : Header)
    → All (λ key. eq_bytes (canonical_key (codes key)) j ≡ false) keys
    → find_value j (strip_headers keys h) ≡ find_value j h
unfolding strip_headers header_del
strip_headers_kept [] j h ne = refl
strip_headers_kept (k ∷ keys) j h ne =
    strip_headers_kept keys j (header_del h k) ne.1
    ∙ find_value-remove_ne (canonical_key (codes k)) j h ne.0

-- The upstream sees none of the internal headers, if the propagator writes none of them.
pub outgoing_internal :
    (inject : Header → Header) (req : Request)
    → All
        (λ key. (h : Header) → header_get h key ≡ [] → header_get (inject h) key ≡ [])
        internal_headers
    → All (λ key. header_get (outgoing inject req).header key ≡ []) internal_headers
unfolding outgoing
outgoing_internal inject req keeps =
    still_gone internal_headers keeps (strip_headers_gone internal_headers req.header)
  where
    stripped : Header
    stripped = strip_headers internal_headers req.header

    still_gone :
        (keys : List String)
        → All (λ key. (h : Header) → header_get h key ≡ [] → header_get (inject h) key ≡ []) keys
        → All (λ key. header_get stripped key ≡ []) keys
        → All (λ key. header_get (inject stripped) key ≡ []) keys
    still_gone [] k g = tt
    still_gone (key ∷ keys) k g = (k.0 stripped g.0, still_gone keys k.1 g.1)

-- Every other header, under its canonical key, keeps its first value, if the propagator keeps it;
-- method, host and URL are untouched, and the upstream gets the bytes of the body that the audit gets.
pub outgoing_kept :
    (inject : Header → Header) (req : Request) (j : Bytes)
    → ((h : Header) → find_value j (inject h) ≡ find_value j h)
    → All (λ key. eq_bytes (canonical_key (codes key)) j ≡ false) internal_headers
    → (find_value j (outgoing inject req).header ≡ find_value j req.header)
      × ((outgoing inject req).method ≡ req.method)
      × ((outgoing inject req).host ≡ req.host)
      × ((outgoing inject req).url ≡ req.url)
      × (body_bytes (outgoing inject req).body ≡ body_bytes req.body)
unfolding outgoing restored_body body_bytes
outgoing_kept inject req j keeps ne = (
  keeps _ ∙ strip_headers_kept internal_headers j req.header ne,
  refl,
  refl,
  refl,
  same_bytes req.body,
)
  where
    same_bytes : (b : RequestBody) → body_bytes (restored_body b) ≡ body_bytes b
    same_bytes no_body = refl
    same_bytes (readable b) = refl
    same_bytes unreadable = refl
