-- ===== src/Main/Laws.antt =====
-- What holds of the parts once the program has started.
use codesteward_audit_proxy.Base.{
  ◌≡◌, refl, subst, inl, inr, Bool, true, Option, none, some, Bool-cases,
}
use codesteward_audit_proxy.Base.Bytes.{Bytes}
use codesteward_audit_proxy.Audit.Event.{AuditEvent}
use codesteward_audit_proxy.Audit.Batcher.{Batcher, new_batcher, Reach}
use codesteward_audit_proxy.Audit.Batcher.Accounting.{Inv}
use codesteward_audit_proxy.Audit.Batcher.Invariant.{Reach-accounted}
use codesteward_audit_proxy.Audit.Scrubber.{
  Engine, Scrubber, Built, built, invalid_pattern, build_scrubber,
}
use codesteward_audit_proxy.Audit.Scrubber.Laws.{Outcome, build_scrubber-Outcome}
use codesteward_audit_proxy.Config.{Config}
use codesteward_audit_proxy.Proxy.Http.{Url, Request}
use codesteward_audit_proxy.Proxy.Router.{new_router_with_config, detect_upstream}
use codesteward_audit_proxy.Proxy.Router.Laws.{IsRouteOf, detect_upstream-IsRouteOf}
use codesteward_audit_proxy.Main.{
  audit_channel_limit, unprocessed_channel_limit, build_transport, Parts, Start, started, or_panic,
  with_scrubber, router_config, start,
}

module _ (engine : Engine) (parse_url : Bytes → Option Url)
    (open_writer : Bytes → Bytes → Bool) where
  -- The parts are those of the configuration.
  pub record Assembled (cfg : Config) (p : Parts engine parse_url open_writer) : Type 0 where
    pub writer_open : open_writer cfg.click_house_dsn cfg.click_house_db ≡ true
    pub scrubber_built : build_scrubber engine cfg.scrub_patterns ≡ built p.scrubber
    pub batcher_made :
        new_batcher audit_channel_limit cfg.batch_size cfg.batch_interval ≡ some p.batcher
    pub unprocessed_made :
        new_batcher unprocessed_channel_limit cfg.batch_size cfg.batch_interval
        ≡ some p.unprocessed_batcher
    pub transport_built : p.transport ≡ build_transport parse_url cfg
    pub router_built : new_router_with_config parse_url (router_config cfg) ≡ some p.router

  -- What the beginning of a start says of its parts.
  abbrev pub OnStarted :
      (Parts engine parse_url open_writer → Type 0) → Start engine parse_url open_writer → Type 0
  OnStarted P (started p) = P p
  OnStarted P _ = Unit

  or_panic-OnStarted :
      {A : Type 0} (P : Parts engine parse_url open_writer → Type 0) (o : Option A)
      (f : A → Start engine parse_url open_writer)
      → ((a : A) → o ≡ some a → OnStarted P (f a))
      → OnStarted P (or_panic engine parse_url open_writer o f)
  or_panic-OnStarted P none f h = tt
  or_panic-OnStarted P (some a) f h = h a refl

  with_scrubber-OnStarted :
      (P : Parts engine parse_url open_writer → Type 0) (o : Built engine (Scrubber engine))
      (f : Scrubber engine → Start engine parse_url open_writer)
      → ((s : Scrubber engine) → o ≡ built s → OnStarted P (f s))
      → OnStarted P (with_scrubber engine parse_url open_writer o f)
  with_scrubber-OnStarted P (invalid_pattern q) f h = tt
  with_scrubber-OnStarted P (built s) f h = h s refl

  pub start-Assembled :
      (cfg : Config) → OnStarted (Assembled cfg) (start engine parse_url open_writer cfg)
  unfolding start build_transport
  start-Assembled cfg = elim (Bool-cases (open_writer cfg.click_house_dsn cfg.click_house_db)) [
    | inr refused ↦ rw refused tt
    | inl opened ↦ rw opened (
        with_scrubber-OnStarted (Assembled cfg) (build_scrubber engine cfg.scrub_patterns) _
          (λ s es.
            or_panic-OnStarted (Assembled cfg)
              (new_batcher audit_channel_limit cfg.batch_size cfg.batch_interval) _
              (λ b eb.
                or_panic-OnStarted (Assembled cfg)
                  (new_batcher unprocessed_channel_limit cfg.batch_size cfg.batch_interval) _
                  (λ u eu.
                    or_panic-OnStarted (Assembled cfg)
                      (new_router_with_config parse_url (router_config cfg)) _
                      (λ r er. record {
                        writer_open = opened;
                        scrubber_built = es;
                        batcher_made = eb;
                        unprocessed_made = eu;
                        transport_built = refl;
                        router_built = er;
                      })))))
  ]

  -- Once the program has started on a configuration, its scrubber has a compiled form of every scrub
  -- pattern that is not blank, its router sends any request to an upstream of the configuration, and
  -- its batcher keeps the invariant of its history in every state that the threads bring it to.
  pub start-serves :
      (cfg : Config) {p : Parts engine parse_url open_writer} {b : Batcher AuditEvent} (r : Request)
      → start engine parse_url open_writer cfg ≡ started p
      → Reach p.batcher b
      → Outcome engine cfg.scrub_patterns (built p.scrubber)
        × IsRouteOf parse_url (router_config cfg) r (detect_upstream p.router r)
        × Inv b
  start-serves cfg {p} {b} r e reach =
      let a = subst (OnStarted (Assembled cfg)) e (start-Assembled cfg) in
      (
        subst (Outcome engine cfg.scrub_patterns) a.scrubber_built
            (build_scrubber-Outcome engine cfg.scrub_patterns),
        detect_upstream-IsRouteOf parse_url (router_config cfg) r a.router_built,
        Reach-accounted audit_channel_limit cfg.batch_size cfg.batch_interval a.batcher_made reach,
      )
