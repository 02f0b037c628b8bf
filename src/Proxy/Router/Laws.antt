-- ===== src/Proxy/Router/Laws.antt =====
-- Which upstream a request goes to, and as what.
use codesteward_audit_proxy.Base.{
  ◌≡◌, refl, subst, ◌⊎◌, inl, inr, Bool, true, false, ◌||◌, Option, none, some, [], ◌∷◌, Bool-cases,
  if◌then◌else◌, Option-cases, ◌>>=◌, if-elim, OnSome, get_or_else-elim, is_nil,
}
use codesteward_audit_proxy.Base.Bytes.{Bytes, codes, has_prefix, contains, equal_fold}
use codesteward_audit_proxy.Proxy.Http.{header_get, Url, Request}
use codesteward_audit_proxy.Proxy.Router.{
  Upstream, Router, RouterConfig, must_parse_upstream, parse_upstream_or_default, sap_route,
  new_router_with_config, request_host, sap_match, host_match, path_match, or_else, detect_upstream,
  default_anthropic_url, default_openai_url, default_gemini_url,
}

-- An upstream with this name, under the configured URL if one is set and parses, and otherwise under
-- the default one.
pub data IsAt (parse_url : Bytes → Option Url) (name default_url configured : Bytes)
    : Upstream → Type 0 where
  at_configured :
      {u : Url}
      → is_nil configured ≡ false
      → parse_url configured ≡ some u
      → IsAt parse_url name default_url configured (record { name = name; url = u })
  at_default :
      {u : Url}
      → (is_nil configured ≡ true) ⊎ (parse_url configured ≡ none)
      → parse_url default_url ≡ some u
      → IsAt parse_url name default_url configured (record { name = name; url = u })

-- The SAP upstream, under the configured base URL.
pub data IsSap (parse_url : Bytes → Option Url) (base : Bytes) : Upstream → Type 0 where
  at_base :
      {u : Url}
      → is_nil base ≡ false
      → parse_url base ≡ some u
      → IsSap parse_url base (record { name = codes "sap-ai-core"; url = u })

-- The upstreams of a router are those of its configuration.
pub record Routes (parse_url : Bytes → Option Url) (cfg : RouterConfig) (rt : Router) : Type 0 where
  pub anthropic :
      IsAt parse_url
        (codes "anthropic")
        default_anthropic_url
        cfg.anthropic_upstream_url
        rt.anthropic
  pub openai : IsAt parse_url (codes "openai") default_openai_url cfg.openai_upstream_url rt.openai
  pub gemini : IsAt parse_url (codes "gemini") default_gemini_url cfg.gemini_upstream_url rt.gemini
  pub sap : (u : Upstream) → rt.sap_upstream ≡ some u → IsSap parse_url cfg.sap_ai_core_base_url u
  pub sap_host : rt.sap_auth_host ≡ cfg.sap_ai_core_auth_host

-- The request names the host, or its path begins in one of two ways.
abbrev pub AsksFor : Request → Bytes → Bytes → Bytes → Type 0
AsksFor r host p q =
    (equal_fold (request_host r) host ≡ true)
    ⊎ (has_prefix r.url.path p ≡ true)
    ⊎ (has_prefix r.url.path q ≡ true)

abbrev pub AsksForOpenAi : Request → Type 0
AsksForOpenAi r = AsksFor r (codes "api.openai.com") (codes "/v1/chat/") (codes "/openai/")

abbrev pub AsksForGemini : Request → Type 0
AsksForGemini r =
    AsksFor r (codes "generativelanguage.googleapis.com") (codes "/v1beta/") (codes "/gemini/")

-- An upstream of the configuration for the request, with the reason why it may be chosen.
pub data IsRouteOf (parse_url : Bytes → Option Url) (cfg : RouterConfig) (r : Request)
    (u : Upstream) : Type 0 where
  to_anthropic :
      IsAt parse_url (codes "anthropic") default_anthropic_url cfg.anthropic_upstream_url u
      → IsRouteOf parse_url cfg r u
  to_openai :
      AsksForOpenAi r
      → IsAt parse_url (codes "openai") default_openai_url cfg.openai_upstream_url u
      → IsRouteOf parse_url cfg r u
  to_gemini :
      AsksForGemini r
      → IsAt parse_url (codes "gemini") default_gemini_url cfg.gemini_upstream_url u
      → IsRouteOf parse_url cfg r u
  to_sap :
      contains (request_host r) cfg.sap_ai_core_auth_host ≡ true
      → IsSap parse_url cfg.sap_ai_core_base_url u
      → IsRouteOf parse_url cfg r u

module _ (parse_url : Bytes → Option Url) where
  must_parse_upstream-IsAt :
      (name default_url configured : Bytes)
      → (is_nil configured ≡ true) ⊎ (parse_url configured ≡ none)
      → OnSome
          (IsAt parse_url name default_url configured)
          (must_parse_upstream parse_url name default_url)
  unfolding must_parse_upstream
  must_parse_upstream-IsAt name default_url configured why =
      elim (Option-cases (parse_url default_url)) [
        | inl bad ↦ rw bad tt
        | inr (u, good) ↦ rw good (at_default why good)
      ]

  parse_upstream-IsAt :
      (name configured default_url : Bytes)
      → OnSome
          (IsAt parse_url name default_url configured)
          (parse_upstream_or_default parse_url name configured default_url)
  unfolding parse_upstream_or_default
  parse_upstream-IsAt name [] default_url = must_parse_upstream-IsAt name default_url [] (inl refl)
  parse_upstream-IsAt name (c ∷ s) default_url = elim (Option-cases (parse_url (c ∷ s))) [
    | inl bad ↦
        rw (bad, parse_upstream_or_default)
          (must_parse_upstream-IsAt name default_url (c ∷ s) (inr bad))
    | inr (u, good) ↦ rw (good, parse_upstream_or_default) (at_configured refl good)
  ]

  sap_route-IsSap : (base : Bytes) → OnSome (IsSap parse_url base) (sap_route parse_url base)
  unfolding sap_route
  sap_route-IsSap [] = tt
  sap_route-IsSap (c ∷ base) = elim (Option-cases (parse_url (c ∷ base))) [
    | inl bad ↦ rw (bad, sap_route) tt
    | inr (u, good) ↦ rw (good, sap_route) (at_base refl good)
  ]

  -- The three upstreams put together.
  assemble-Routes :
      (cfg : RouterConfig) (a o g : Option Upstream)
      → OnSome
          (IsAt parse_url (codes "anthropic") default_anthropic_url cfg.anthropic_upstream_url)
          a
      → OnSome (IsAt parse_url (codes "openai") default_openai_url cfg.openai_upstream_url) o
      → OnSome (IsAt parse_url (codes "gemini") default_gemini_url cfg.gemini_upstream_url) g
      → OnSome (Routes parse_url cfg) (
          a >>= λ x. o >>= λ y. g >>= λ z. some (record {
            anthropic = x;
            openai = y;
            gemini = z;
            sap_upstream = sap_route parse_url cfg.sap_ai_core_base_url;
            sap_auth_host = cfg.sap_ai_core_auth_host;
          }))
  assemble-Routes cfg none o g p q r = tt
  assemble-Routes cfg (some x) none g p q r = tt
  assemble-Routes cfg (some x) (some y) none p q r = tt
  assemble-Routes cfg (some x) (some y) (some z) p q r = record {
    anthropic = p;
    openai = q;
    gemini = r;
    sap = λ u e.
        subst (OnSome (IsSap parse_url cfg.sap_ai_core_base_url)) e
          (sap_route-IsSap cfg.sap_ai_core_base_url);
    sap_host = refl;
  }

  new_router-Routes :
      (cfg : RouterConfig) {rt : Router}
      → new_router_with_config parse_url cfg ≡ some rt
      → Routes parse_url cfg rt
  unfolding new_router_with_config
  new_router-Routes cfg e = subst (OnSome (Routes parse_url cfg)) e (
      assemble-Routes cfg _ _ _
        (parse_upstream-IsAt (codes "anthropic") cfg.anthropic_upstream_url default_anthropic_url)
        (parse_upstream-IsAt (codes "openai") cfg.openai_upstream_url default_openai_url)
        (parse_upstream-IsAt (codes "gemini") cfg.gemini_upstream_url default_gemini_url))

or-cases : (x y : Bool) → (x || y) ≡ true → (x ≡ true) ⊎ (y ≡ true)
or-cases true y h = inl refl
or-cases false y h = inr h

module _ (P : Upstream → Type 0) (rt : Router) (r : Request) (a : P rt.anthropic)
    (o : AsksForOpenAi r → P rt.openai) (g : AsksForGemini r → P rt.gemini) where
  choose-elim :
      (x y z : Bool)
      → (y ≡ true → AsksForOpenAi r)
      → (z ≡ true → AsksForGemini r)
      → OnSome P (
          if x
          then some rt.anthropic
          else if y
          then some rt.openai
          else if z
          then some rt.gemini
          else none)
  choose-elim true y z p q = a
  choose-elim false true z p q = o (p refl)
  choose-elim false false true p q = g (q refl)
  choose-elim false false false p q = tt

  host_match-elim : OnSome P (host_match rt (request_host r))
  unfolding host_match
  host_match-elim =
      choose-elim (equal_fold (request_host r) (codes "api.anthropic.com"))
        (equal_fold (request_host r) (codes "api.openai.com"))
        (equal_fold (request_host r) (codes "generativelanguage.googleapis.com")) (λ e. inl e)
        (λ e. inl e)

  path_match-elim : OnSome P (path_match rt r.url.path)
  unfolding path_match
  path_match-elim =
      let path = r.url.path in
      choose-elim (has_prefix path (codes "/v1/messages") || has_prefix path (codes "/anthropic/"))
        (has_prefix path (codes "/v1/chat/") || has_prefix path (codes "/openai/"))
        (has_prefix path (codes "/v1beta/") || has_prefix path (codes "/gemini/"))
        (λ e. inr (or-cases (has_prefix path (codes "/v1/chat/")) _ e))
        (λ e. inr (or-cases (has_prefix path (codes "/v1beta/")) _ e))

  sap_match-elim :
      ((u : Upstream)
        → rt.sap_upstream ≡ some u
        → contains (request_host r) rt.sap_auth_host ≡ true
        → P u)
      → OnSome P (sap_match rt (request_host r))
  unfolding sap_match
  sap_match-elim sap = elim (Option-cases rt.sap_upstream) [
    | inl off ↦ rw (off, sap_match) tt
    | inr (u, e) ↦ elim (Bool-cases (contains (request_host r) rt.sap_auth_host)) [
      | inl named ↦ rw (e, named, sap_match) (sap u e named)
      | inr other ↦ rw (e, other, sap_match) tt
    ]
  ]

  or_else-elim : (x y : Option Upstream) → OnSome P x → OnSome P y → OnSome P (or_else x y)
  or_else-elim none y p q = q
  or_else-elim (some u) y p q = p

  -- What detection returns is one of the router's upstreams, for a reason.
  detect_upstream-elim :
      ((u : Upstream)
        → rt.sap_upstream ≡ some u
        → contains (request_host r) rt.sap_auth_host ≡ true
        → P u)
      → P (detect_upstream rt r)
  unfolding detect_upstream
  detect_upstream-elim sap =
      get_or_else-elim P _ _
        (or_else-elim (sap_match rt (request_host r))
          (or_else (host_match rt (request_host r)) (path_match rt r.url.path)) (sap_match-elim sap)
          (or_else-elim (host_match rt (request_host r)) (path_match rt r.url.path) host_match-elim
            path_match-elim))
        (if-elim P (is_nil (header_get r.header "anthropic-version")) {x = rt.anthropic}
          {y = rt.anthropic} a a)

-- A router that was built sends every request to one of the four upstreams of its configuration: to
-- Anthropic, OpenAI or Gemini under the configured URL, or the default one if none is set or it does
-- not parse; or to SAP AI Core under its base URL, if that is set. It goes to OpenAI or Gemini only if
-- the request's host or path asks for it, and to SAP AI Core only if its host contains the configured
-- fragment.
pub detect_upstream-IsRouteOf :
    (parse_url : Bytes → Option Url) (cfg : RouterConfig) {rt : Router} (r : Request)
    → new_router_with_config parse_url cfg ≡ some rt
    → IsRouteOf parse_url cfg r (detect_upstream rt r)
detect_upstream-IsRouteOf parse_url cfg {rt} r e =
    let n = new_router-Routes parse_url cfg e in
    detect_upstream-elim (IsRouteOf parse_url cfg r) rt r (to_anthropic n.anthropic)
      (λ w. to_openai w n.openai) (λ w. to_gemini w n.gemini)
      (λ u q h. to_sap (rw (n.sap_host) at h) (n.sap u q))
