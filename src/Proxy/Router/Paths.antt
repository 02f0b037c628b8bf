-- ===== src/Proxy/Router/Paths.antt =====
-- Local path prefixes: what they are stripped to, and where they lead.
use codesteward_audit_proxy.Base.{
  ◌≡◌, refl, inl, inr, Bool, true, false, none, some, List, [], ◌∷◌, ◌++◌, if◌then◌else◌,
  Option-cases, is_nil, All,
}
use codesteward_audit_proxy.Base.Bytes.{
  Bytes, codes, strip_prefix, strip_prefix_sound, has_prefix, contains,
}
use mathlib.Core.List.{Memᴰ}
use codesteward_audit_proxy.Proxy.Http.{header_get, Request}
use codesteward_audit_proxy.Proxy.Router.{
  Upstream, Router, request_host, sap_match, host_match, path_match, or_else, detect_upstream,
  prefixes, strip_first, rewrite_request,
}

-- What a path may be rewritten to: what is left of it behind one of the prefixes, or the path.
pub data Stripped (ps : List Bytes) (path : Bytes) : Bytes → Type 0 where
  behind : {p rest : Bytes} → Memᴰ p ps → path ≡ p ++ rest → Stripped ps path (b'/' ∷ rest)
  unprefixed : All (λ p. strip_prefix p path ≡ none) ps → Stripped ps path path

Stripped-cons :
    (p : Bytes) (ps : List Bytes) (path path1 : Bytes)
    → strip_prefix p path ≡ none
    → Stripped ps path path1
    → Stripped (p ∷ ps) path path1
Stripped-cons p ps path _ h (behind m e) = behind (Memᴰ.tail m) e
Stripped-cons p ps path _ h (unprefixed a) = unprefixed (h, a)

strip_first-Stripped : (ps : List Bytes) (path : Bytes) → Stripped ps path (strip_first ps path)
unfolding strip_first
strip_first-Stripped [] path = unprefixed tt
strip_first-Stripped (p ∷ ps) path = elim (Option-cases (strip_prefix p path)) [
  | inl h ↦ rw (h, strip_first) (Stripped-cons p ps path _ h (strip_first-Stripped ps path))
  | inr (rest, e) ↦ rw (e, strip_first) (behind (Memᴰ.head refl) (strip_prefix_sound p path e))
]

-- A request is rewritten to the upstream's scheme and host, in its URL and its Host. Its path becomes
-- a slash and what stands behind one of the four local prefixes, and is kept if it begins with none
-- of them. Its query, method, header and body are kept.
pub rewrite_request-path :
    (r : Request) (u : Upstream)
    → (let x = rewrite_request r u in
        (x.url.scheme ≡ u.url.scheme)
        × (x.url.host ≡ u.url.host)
        × (x.host ≡ u.url.host)
        × Stripped prefixes r.url.path x.url.path
        × (x.url.query ≡ r.url.query)
        × (x.method ≡ r.method)
        × (x.header ≡ r.header)
        × (x.body ≡ r.body))
unfolding rewrite_request
rewrite_request-path r u =
    (refl, refl, refl, strip_first-Stripped prefixes r.url.path, refl, refl, refl, refl)

-- Where a path behind a local prefix leads.
pub data LocalRoute (rt : Router) (path : Bytes) : Upstream → Type 0 where
  to_anthropic :
      (rest : Bytes) → path ≡ codes "/anthropic/" ++ rest → LocalRoute rt path rt.anthropic
  to_openai : (rest : Bytes) → path ≡ codes "/openai/" ++ rest → LocalRoute rt path rt.openai
  to_gemini : (rest : Bytes) → path ≡ codes "/gemini/" ++ rest → LocalRoute rt path rt.gemini
  sap_to_anthropic :
      (rest : Bytes) → path ≡ codes "/sap-aicore/" ++ rest → LocalRoute rt path rt.anthropic

same : {A : Type 0} (b : Bool) (x : A) → (if b then x else x) ≡ x
same true x = refl
same false x = refl

-- Where neither the SAP host nor the request's host decides, the local prefixes of Anthropic, OpenAI
-- and Gemini lead to these, and /sap-aicore/ leads to Anthropic.
pub detect_upstream-prefix :
    (rt : Router) (r : Request) (u : Upstream)
    → sap_match rt (request_host r) ≡ none
    → host_match rt (request_host r) ≡ none
    → LocalRoute rt r.url.path u
    → detect_upstream rt r ≡ u
unfolding detect_upstream path_match has_prefix strip_prefix
detect_upstream-prefix rt r _ s h (to_anthropic rest e) = rw (s, h, or_else) (rw e refl)
detect_upstream-prefix rt r _ s h (to_openai rest e) = rw (s, h, or_else) (rw e refl)
detect_upstream-prefix rt r _ s h (to_gemini rest e) = rw (s, h, or_else) (rw e refl)
detect_upstream-prefix rt r _ s h (sap_to_anthropic rest e) =
    rw (s, h, or_else) (rw e (same (is_nil (header_get r.header "anthropic-version")) rt.anthropic))

contains-nil : (s : Bytes) → contains s [] ≡ true
unfolding contains
contains-nil [] = refl
contains-nil (c ∷ s) = refl

-- With the SAP upstream set and an empty host fragment every request goes to SAP AI Core.
pub detect_upstream-all_sap :
    (rt : Router) (u : Upstream) (r : Request)
    → rt.sap_upstream ≡ some u
    → rt.sap_auth_host ≡ []
    → detect_upstream rt r ≡ u
unfolding detect_upstream sap_match
detect_upstream-all_sap rt u r on empty =
    rw (on, sap_match, or_else) (rw (empty, contains-nil (request_host r)))
