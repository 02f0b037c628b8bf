-- ===== src/Main.antt =====
-- The part of cmd/proxy/main.go that builds the other parts from the configuration, and
-- internal/proxy/transport.go. The ClickHouse driver's opening of a connection and url.Parse are
-- parameters.
pub mod Laws
pub mod Outcome
pub mod Boot
pub mod Server
pub mod Shutdown
use codesteward_audit_proxy.Base.{ℕ, Bool, true, Option, none, some, [], ◌∷◌, if◌then◌else◌}
use codesteward_audit_proxy.Base.Bytes.{Bytes}
use codesteward_audit_proxy.Audit.Event.{AuditEvent, UnprocessedEvent}
use codesteward_audit_proxy.Audit.Batcher.{Batcher, new_batcher}
use codesteward_audit_proxy.Audit.Scrubber.{
  Engine, Scrubber, Built, built, invalid_pattern, build_scrubber,
}
use codesteward_audit_proxy.Config.{Config}
use codesteward_audit_proxy.Proxy.Http.{Url}
use codesteward_audit_proxy.Proxy.Router.{Router, RouterConfig, new_router_with_config}

-- The proxy function of the outbound transport.
pub data ProxyChoice : Type 0 where
  from_environment : ProxyChoice
  fixed : Url → ProxyChoice

-- Timeouts in seconds.
pub record OutboundTransport : Type 0 where
  pub proxy : ProxyChoice
  pub tls_handshake_timeout : ℕ
  pub response_header_timeout : ℕ
  pub force_attempt_http2 : Bool

module _ (parse_url : Bytes → Option Url) where
  -- A proxy URL that does not parse falls back to the environment.
  unfoldable pub proxy_choice : Bytes → ProxyChoice
  proxy_choice [] = from_environment
  proxy_choice (c ∷ s) = elim (parse_url (c ∷ s)) [ none ↦ from_environment | some u ↦ fixed u ]

  unfoldable pub build_transport : Config → OutboundTransport
  unfolding proxy_choice
  build_transport cfg = record {
    proxy = proxy_choice cfg.upstream_proxy;
    tls_handshake_timeout = 10;
    response_header_timeout = 30;
    force_attempt_http2 = true;
  }

-- The largest capacities that `make` allows the two channels where an int has 64 bits and the
-- allocator at most 2 ^ 48 bytes, 96 of which are the channel's own: events of 344 and of 240 bytes.
abbrev pub audit_channel_limit : ℕ
audit_channel_limit = 818241211368

abbrev pub unprocessed_channel_limit : ℕ
unprocessed_channel_limit = 1172812402960

abbrev pub router_config : Config → RouterConfig
router_config cfg = record {
  anthropic_upstream_url = cfg.anthropic_upstream_url;
  openai_upstream_url = cfg.openai_upstream_url;
  gemini_upstream_url = cfg.gemini_upstream_url;
  sap_ai_core_base_url = cfg.sap_ai_core_base_url;
  sap_ai_core_auth_host = cfg.sap_ai_core_auth_host;
}

module _ (engine : Engine) (parse_url : Bytes → Option Url)
    (open_writer : Bytes → Bytes → Bool) where
  -- The parts that `main` puts together.
  pub record Parts : Type 0 where
    pub scrubber : Scrubber engine
    pub batcher : Batcher AuditEvent
    pub unprocessed_batcher : Batcher UnprocessedEvent
    pub transport : OutboundTransport
    pub router : Router

  -- How `main` gets on: it exits with an error, or panics, or has its parts.
  pub data Start : Type 0 where
    exits_no_writer : Start
    exits_invalid_pattern : Bytes → Start
    panics : Start
    started : Parts → Start

  abbrev pub or_panic {ℓ} : {A : Type ℓ} → Option A → (A → Start) → Start
  or_panic none f = panics
  or_panic (some a) f = f a

  abbrev pub with_scrubber : Built engine (Scrubber engine) → (Scrubber engine → Start) → Start
  with_scrubber (invalid_pattern p) f = exits_invalid_pattern p
  with_scrubber (built s) f = f s

  unfoldable pub start : Config → Start
  unfolding build_scrubber new_batcher build_transport new_router_with_config
  start cfg =
      let rest = with_scrubber (build_scrubber engine cfg.scrub_patterns) (λ scrubber.
        or_panic (new_batcher audit_channel_limit cfg.batch_size cfg.batch_interval) (λ batcher.
          or_panic (new_batcher unprocessed_channel_limit cfg.batch_size cfg.batch_interval)
            (λ unprocessed_batcher.
              or_panic (new_router_with_config parse_url (router_config cfg)) (λ router.
                started (record {
                  scrubber = scrubber;
                  batcher = batcher;
                  unprocessed_batcher = unprocessed_batcher;
                  transport = build_transport parse_url cfg;
                  router = router;
                }))))) in
      if open_writer cfg.click_house_dsn cfg.click_house_db then rest else exits_no_writer
