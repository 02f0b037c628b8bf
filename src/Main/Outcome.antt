-- ===== src/Main/Outcome.antt =====
-- Every way in which the parts come, or fail to come, from the configuration.
use codesteward_audit_proxy.Base.{
  ℕ, ◌<◌, ◌*◌, leb, arith, ◌≡◌, refl, subst, inl, inr, Bool, true, false, Option, none, some,
  Bool-cases,
}
use codesteward_audit_proxy.Base.Bytes.{Bytes}
use codesteward_audit_proxy.Base.Int.{ℤ, pos, negsuc, positive}
use codesteward_audit_proxy.Audit.Batcher.{new_batcher}
use codesteward_audit_proxy.Audit.Scrubber.{
  Engine, Scrubber, Built, built, invalid_pattern, build_scrubber,
}
use codesteward_audit_proxy.Audit.Scrubber.Laws.{Outcome, build_scrubber-Outcome}
use codesteward_audit_proxy.Config.{Config}
use codesteward_audit_proxy.Proxy.Http.{Url}
use codesteward_audit_proxy.Proxy.Router.{new_router_with_config}
use codesteward_audit_proxy.Main.{
  audit_channel_limit, unprocessed_channel_limit, build_transport, Parts, Start, exits_no_writer,
  exits_invalid_pattern, panics, started, or_panic, with_scrubber, router_config, start,
}
use codesteward_audit_proxy.Main.Laws.{Assembled}

-- Sizes and intervals on which NewBatcher panics, for a channel of at most this capacity.
pub data IsRefused (most : ℕ) : ℤ → ℤ → Type 0 where
  negative_size : {n : ℕ} {interval : ℤ} → IsRefused most (negsuc n) interval
  too_large : {n : ℕ} {interval : ℤ} → most < n * 10 → IsRefused most (pos n) interval
  no_interval : {size interval : ℤ} → positive interval ≡ false → IsRefused most size interval

new_batcher-IsRefused :
    {E : Type 0} (most : ℕ) (size interval : ℤ)
    → new_batcher {E = E} most size interval ≡ none
    → IsRefused most size interval
unfolding new_batcher
new_batcher-IsRefused most (negsuc n) interval e = negative_size
new_batcher-IsRefused most (pos n) interval e = elim (Bool-cases (leb (n * 10) most)) [
  | inr large ↦ too_large (ground (arith, large))
  | inl small ↦ elim (Bool-cases (positive interval)) [
    | inl lasting ↦ cc (rw (small, lasting) at e)
    | inr no_time ↦ no_interval no_time
  ]
]

-- What refuses the second batcher had refused the first, whose events are larger.
IsRefused-unprocessed :
    {size interval : ℤ}
    → IsRefused unprocessed_channel_limit size interval
    → IsRefused audit_channel_limit size interval
IsRefused-unprocessed negative_size = negative_size
IsRefused-unprocessed (too_large h) = too_large (omega (arith, h))
IsRefused-unprocessed (no_interval h) = no_interval h

module _ (engine : Engine) (parse_url : Bytes → Option Url) (open_writer : Bytes → Bytes → Bool)
    (cfg : Config) where
  abbrev pub is_open : Bool
  is_open = open_writer cfg.click_house_dsn cfg.click_house_db

  pub data StartOutcome : Start engine parse_url open_writer → Type 0 where
    no_writer : is_open ≡ false → StartOutcome exits_no_writer
    bad_pattern :
        {q : Bytes}
        → is_open ≡ true
        → Outcome engine cfg.scrub_patterns (invalid_pattern q)
        → StartOutcome (exits_invalid_pattern q)
    no_batcher :
        {s : Scrubber engine}
        → is_open ≡ true
        → Outcome engine cfg.scrub_patterns (built s)
        → IsRefused audit_channel_limit cfg.batch_size cfg.batch_interval
        → StartOutcome panics
    no_router :
        {s : Scrubber engine}
        → is_open ≡ true
        → Outcome engine cfg.scrub_patterns (built s)
        → new_router_with_config parse_url (router_config cfg) ≡ none
        → StartOutcome panics
    assembled :
        {p : Parts engine parse_url open_writer}
        → Outcome engine cfg.scrub_patterns (built p.scrubber)
        → Assembled engine parse_url open_writer cfg p
        → StartOutcome (started p)

  -- A test of the outcome, where something that may panic comes first.
  or_panic-StartOutcome :
      {A : Type 0} (o : Option A) (f : A → Start engine parse_url open_writer)
      → (o ≡ none → StartOutcome panics)
      → ((a : A) → o ≡ some a → StartOutcome (f a))
      → StartOutcome (or_panic engine parse_url open_writer o f)
  or_panic-StartOutcome none f fails works = fails refl
  or_panic-StartOutcome (some a) f fails works = works a refl

  with_scrubber-StartOutcome :
      (o : Built engine (Scrubber engine))
      (f : Scrubber engine → Start engine parse_url open_writer)
      → ((q : Bytes) → o ≡ invalid_pattern q → StartOutcome (exits_invalid_pattern q))
      → ((s : Scrubber engine) → o ≡ built s → StartOutcome (f s))
      → StartOutcome (with_scrubber engine parse_url open_writer o f)
  with_scrubber-StartOutcome (invalid_pattern q) f fails works = fails q refl
  with_scrubber-StartOutcome (built s) f fails works = works s refl

  scrubber_outcome :
      {r : Built engine (Scrubber engine)}
      → build_scrubber engine cfg.scrub_patterns ≡ r
      → Outcome engine cfg.scrub_patterns r
  scrubber_outcome e =
      subst (Outcome engine cfg.scrub_patterns) e (build_scrubber-Outcome engine cfg.scrub_patterns)

  pub start-StartOutcome : StartOutcome (start engine parse_url open_writer cfg)
  unfolding start build_transport
  start-StartOutcome = elim (Bool-cases is_open) [
    | inr refused ↦ rw refused (no_writer refused)
    | inl opened ↦ rw opened (
        with_scrubber-StartOutcome (build_scrubber engine cfg.scrub_patterns) _
          (λ q eq. bad_pattern opened (scrubber_outcome eq))
          (λ s es.
            or_panic-StartOutcome
              (new_batcher audit_channel_limit cfg.batch_size cfg.batch_interval) _
              (λ refused. no_batcher opened (scrubber_outcome es) (
                new_batcher-IsRefused audit_channel_limit cfg.batch_size cfg.batch_interval
                  refused))
              (λ b eb.
                or_panic-StartOutcome
                  (new_batcher unprocessed_channel_limit cfg.batch_size cfg.batch_interval) _
                  (λ refused. no_batcher opened (scrubber_outcome es) (
                    IsRefused-unprocessed (
                      new_batcher-IsRefused unprocessed_channel_limit cfg.batch_size
                        cfg.batch_interval refused)))
                  (λ u eu.
                    or_panic-StartOutcome (new_router_with_config parse_url (router_config cfg)) _
                      (λ refused. no_router opened (scrubber_outcome es) refused)
                      (λ r er. assembled (scrubber_outcome es) (record {
                        writer_open = opened;
                        scrubber_built = es;
                        batcher_made = eb;
                        unprocessed_made = eu;
                        transport_built = refl;
                        router_built = er;
                      }))))))
  ]
