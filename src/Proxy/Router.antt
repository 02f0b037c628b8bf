-- ===== src/Proxy/Router.antt =====
-- internal/proxy/router.go. url.Parse is a parameter.
pub mod Laws
pub mod Paths
use codesteward_audit_proxy.Base.{
  ◌-◌, ◌/◌, ◌||◌, Option, none, some, List, [], ◌∷◌, if◌then◌else◌, get_or_else, ◌>>=◌, is_nil,
}
use codesteward_audit_proxy.Base.Bytes.{
  Bytes, codes, strip_prefix, has_prefix, contains, before_last, equal_fold,
}
use codesteward_audit_proxy.Proxy.Http.{header_get, Url, Request}

pub record Upstream : Type 0 where
  pub name : Bytes
  pub url : Url

pub record Router : Type 0 where
  pub anthropic : Upstream
  pub openai : Upstream
  pub gemini : Upstream
  pub sap_upstream : Option Upstream
  pub sap_auth_host : Bytes

pub record RouterConfig : Type 0 where
  pub anthropic_upstream_url : Bytes
  pub openai_upstream_url : Bytes
  pub gemini_upstream_url : Bytes
  pub sap_ai_core_base_url : Bytes
  pub sap_ai_core_auth_host : Bytes

abbrev pub default_anthropic_url : Bytes
default_anthropic_url = codes "https://api.anthropic.com"

abbrev pub default_openai_url : Bytes
default_openai_url = codes "https://api.openai.com"

abbrev pub default_gemini_url : Bytes
default_gemini_url = codes "https://generativelanguage.googleapis.com"

module _ (parse_url : Bytes → Option Url) where
  -- `none` is the panic.
  unfoldable pub must_parse_upstream : Bytes → Bytes → Option Upstream
  must_parse_upstream name raw_url =
      parse_url raw_url >>= λ u. some (record { name = name; url = u })

  unfoldable pub parse_upstream_or_default : Bytes → Bytes → Bytes → Option Upstream
  unfolding must_parse_upstream
  parse_upstream_or_default name [] default_url = must_parse_upstream name default_url
  parse_upstream_or_default name (c ∷ override) default_url = elim (parse_url (c ∷ override)) [
    | some u ↦ some (record { name = name; url = u })
    | none ↦ must_parse_upstream name default_url
  ]

  -- A base URL that does not parse leaves the route off.
  unfoldable pub sap_route : Bytes → Option Upstream
  sap_route [] = none
  sap_route (c ∷ base) =
      parse_url (c ∷ base) >>= λ u. some (record { name = codes "sap-ai-core"; url = u })

  unfoldable pub new_router_with_config : RouterConfig → Option Router
  unfolding parse_upstream_or_default sap_route
  new_router_with_config cfg = do
    anthropic ←
        parse_upstream_or_default (codes "anthropic") cfg.anthropic_upstream_url
          default_anthropic_url
    openai ← parse_upstream_or_default (codes "openai") cfg.openai_upstream_url default_openai_url
    gemini ← parse_upstream_or_default (codes "gemini") cfg.gemini_upstream_url default_gemini_url
    some (record {
      anthropic = anthropic;
      openai = openai;
      gemini = gemini;
      sap_upstream = sap_route cfg.sap_ai_core_base_url;
      sap_auth_host = cfg.sap_ai_core_auth_host;
    })

  unfoldable pub new_router : Bytes → Bytes → Option Router
  unfolding new_router_with_config
  new_router sap_base_url sap_auth_host = new_router_with_config (record {
    anthropic_upstream_url = [];
    openai_upstream_url = [];
    gemini_upstream_url = [];
    sap_ai_core_base_url = sap_base_url;
    sap_ai_core_auth_host = sap_auth_host;
  })

-- The host that detection looks at: r.Host or the Host header, without its port.
unfoldable pub request_host : Request → Bytes
unfolding header_get before_last
request_host r =
    let host = if is_nil r.host then header_get r.header "Host" else r.host in
    get_or_else (before_last b':' host) host

unfoldable pub sap_match : Router → Bytes → Option Upstream
sap_match rt host = elim rt.sap_upstream [
  | none ↦ none
  | some u ↦ if contains host rt.sap_auth_host then some u else none
]

unfoldable pub host_match : Router → Bytes → Option Upstream
host_match rt host =
    if equal_fold host (codes "api.anthropic.com")
    then some rt.anthropic
    else if equal_fold host (codes "api.openai.com")
    then some rt.openai
    else if equal_fold host (codes "generativelanguage.googleapis.com")
    then some rt.gemini
    else none

unfoldable pub path_match : Router → Bytes → Option Upstream
path_match rt path =
    if has_prefix path (codes "/v1/messages") || has_prefix path (codes "/anthropic/")
    then some rt.anthropic
    else if has_prefix path (codes "/v1/chat/") || has_prefix path (codes "/openai/")
    then some rt.openai
    else if has_prefix path (codes "/v1beta/") || has_prefix path (codes "/gemini/")
    then some rt.gemini
    else none

abbrev pub or_else {ℓ} : {A : Type ℓ} → Option A → Option A → Option A
or_else none b = b
or_else (some a) b = some a

unfoldable pub detect_upstream : Router → Request → Upstream
unfolding header_get
detect_upstream rt r =
    get_or_else
      (or_else (sap_match rt (request_host r))
        (or_else (host_match rt (request_host r)) (path_match rt r.url.path)))
      (if is_nil (header_get r.header "anthropic-version") then rt.anthropic else rt.anthropic)

abbrev pub prefixes : List Bytes
prefixes = codes "/anthropic/" ∷ codes "/openai/" ∷ codes "/gemini/" ∷ codes "/sap-aicore/" ∷ []

-- The loop over the prefixes, up to its break.
unfoldable pub strip_first : List Bytes → Bytes → Bytes
unfolding strip_prefix
strip_first [] path = path
strip_first (p ∷ ps) path = elim (strip_prefix p path) [
  | some rest ↦ b'/' ∷ rest
  | none ↦ strip_first ps path
]

unfoldable pub rewrite_request : Request → Upstream → Request
unfolding strip_first
rewrite_request r upstream =
    let u = r.url in
    record r {
      host = upstream.url.host;
      url = record u {
        scheme = upstream.url.scheme;
        host = upstream.url.host;
        path = strip_first prefixes u.path;
      };
    }
