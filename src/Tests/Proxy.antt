-- ===== src/Tests/Proxy.antt =====
-- The router and the tap at concrete requests and responses.
use codesteward_audit_proxy.Base.{String, ◌≡◌, refl, Option, none, some, [], ◌∷◌}
use codesteward_audit_proxy.Base.Bytes.{Bytes, codes, equal_fold}
use codesteward_audit_proxy.Proxy.Http.{Header, Url, Request, readable}
use codesteward_audit_proxy.Proxy.Router.{
  Upstream, Router, RouterConfig, new_router_with_config, request_host, sap_match, host_match,
  detect_upstream, prefixes, rewrite_request,
}
use codesteward_audit_proxy.Proxy.Router.Laws.{IsRouteOf, detect_upstream-IsRouteOf}
use codesteward_audit_proxy.Proxy.Router.Paths.{
  Stripped, sap_to_anthropic, rewrite_request-path, detect_upstream-prefix,
}
use codesteward_audit_proxy.Proxy.Tap.{tap_body, reads, closes, use_body}
use codesteward_audit_proxy.Proxy.Tap.Laws.{Faithful, tap_body-Faithful}

-- A concrete url.Parse: everything is a host.
abbrev pub host_only : Bytes → Option Url
host_only s = some (record { scheme = codes "https"; host = s; path = []; query = [] })

abbrev upstream_at : String → String → Upstream
upstream_at name host = record {
  name = codes name;
  url = record { scheme = codes "https"; host = codes host; path = []; query = [] };
}

abbrev config : RouterConfig
config = record {
  anthropic_upstream_url = codes "a";
  openai_upstream_url = codes "o";
  gemini_upstream_url = codes "g";
  sap_ai_core_base_url = codes "s";
  sap_ai_core_auth_host = [];
}

abbrev pub router : Router
router = record {
  anthropic = upstream_at "anthropic" "a";
  openai = upstream_at "openai" "o";
  gemini = upstream_at "gemini" "g";
  sap_upstream = some (upstream_at "sap-ai-core" "s");
  sap_auth_host = [];
}

abbrev pub no_sap : Router
no_sap = record router { sap_upstream = none }

abbrev pub request : Request
request = record {
  method = codes "POST";
  host = codes "localhost:8080";
  url = record { scheme = []; host = []; path = codes "/sap-aicore/v2"; query = codes "x=1" };
  header = (codes "X-Audit-User", codes "me") ∷ (codes "Accept", codes "json") ∷ [];
  body = readable (codes "{}");
}

router_built : new_router_with_config host_only config ≡ some router
unfolding new_router_with_config
router_built = refl

detect_upstream-IsRouteOf_example :
    IsRouteOf host_only config request (detect_upstream router request)
detect_upstream-IsRouteOf_example = detect_upstream-IsRouteOf host_only config request router_built

local_host :
    (sap_match no_sap (request_host request) ≡ none)
    × (host_match no_sap (request_host request) ≡ none)
unfolding sap_match host_match request_host equal_fold
local_host = (refl, refl)

sap_prefix_unknown : detect_upstream no_sap request ≡ upstream_at "anthropic" "a"
sap_prefix_unknown =
    detect_upstream-prefix no_sap request (upstream_at "anthropic" "a") local_host.0 local_host.1
      (sap_to_anthropic (codes "v2") refl)

rewrite_request-path_example :
    (let x = rewrite_request request (upstream_at "openai" "o") in
      (x.url.scheme ≡ codes "https")
      × (x.url.host ≡ codes "o")
      × (x.host ≡ codes "o")
      × Stripped prefixes request.url.path x.url.path
      × (x.url.query ≡ request.url.query)
      × (x.method ≡ request.method)
      × (x.header ≡ request.header)
      × (x.body ≡ request.body))
rewrite_request-path_example = rewrite_request-path request (upstream_at "openai" "o")

abbrev event_stream : Header
event_stream = (codes "Content-Type", codes "text/event-stream") ∷ []

tap_body-Faithful_example :
    Faithful (codes "abc") (tap_body event_stream (codes "a" ∷ codes "bc" ∷ [])).is_stream (
      use_body
        (tap_body event_stream (codes "a" ∷ codes "bc" ∷ []))
        (reads ∷ reads ∷ closes ∷ closes ∷ []))
tap_body-Faithful_example =
    tap_body-Faithful event_stream (codes "a" ∷ codes "bc" ∷ [])
      (reads ∷ reads ∷ closes ∷ closes ∷ [])
