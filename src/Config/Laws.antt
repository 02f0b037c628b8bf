-- ===== src/Config/Laws.antt =====
-- What Load accepts, and what the batcher makes of it.
use codesteward_audit_proxy.Base.{
  ℕ, ◌≡◌, refl, subst, String, inl, inr, Bool, true, false, Option, none, some, [], ◌∷◌, Bool-cases,
  Option-cases, is_nil,
}
use codesteward_audit_proxy.Base.Bytes.{Bytes, codes}
use codesteward_audit_proxy.Base.Int.{ℤ, pos, negsuc}
use codesteward_audit_proxy.Config.{
  Config, get_env, invalid_capture_requests, invalid_batch_size, invalid_batch_interval,
  dsn_required, Loaded, ok, err, Environment, get_env_int, get_env_bool, atoi, second, parse_bool,
  get_parsed, get_env_duration, config_of, load,
}
use codesteward_audit_proxy.Audit.Batcher.{new_batcher}

-- What a variable gives: its fallback if it is unset, the parsed text if that is well formed, and
-- otherwise nothing.
pub data Setting {A : Type 0} (env : Environment) (key : String) (parse : Bytes → Option A)
    (fallback : A) : Option A → Type 0 where
  unset : env (codes key) ≡ none → Setting env key parse fallback (some fallback)
  well_formed :
      (s : Bytes) {a : A}
      → env (codes key) ≡ some s
      → parse s ≡ some a
      → Setting env key parse fallback (some a)
  malformed :
      (s : Bytes) → env (codes key) ≡ some s → parse s ≡ none → Setting env key parse fallback none

get_parsed-Setting :
    {A : Type 0} (env : Environment) (key : String) (parse : Bytes → Option A) (fallback : A)
    → Setting env key parse fallback (get_parsed parse (env (codes key)) fallback)
get_parsed-Setting env key parse fallback = elim (Option-cases (env (codes key))) [
  | inl gone ↦ rw gone (unset gone)
  | inr (s, here) ↦ elim (Option-cases (parse s)) [
    | inl bad ↦ rw (here, bad) (malformed s here bad)
    | inr (a, good) ↦ rw (here, good) (well_formed s here good)
  ]
]

-- A variable that is not empty.
pub record IsGiven (env : Environment) (key : String) : Type 0 where
  pub first : ℕ
  pub rest : Bytes
  pub here : env (codes key) ≡ some (first ∷ rest)

get_env-IsGiven :
    (env : Environment) (key : String) → is_nil (get_env env key []) ≡ false → IsGiven env key
unfolding get_env
get_env-IsGiven env key h = elim (Option-cases (env (codes key))) [
  | inl gone ↦ cc (rw gone at h)
  | inr ([], here) ↦ cc (rw here at h)
  | inr (c ∷ s, here) ↦ record { first = c; rest = s; here = here }
]

get_env-missing :
    (env : Environment) (key : String) → is_nil (get_env env key []) ≡ true → ¬ IsGiven env key
unfolding get_env
get_env-missing env key h given = cc (rw given.here at h)

module _ (parse_duration : Bytes → Option ℤ) (git : Option Bytes) (env : Environment) where
  abbrev pub CaptureSetting : Option Bool → Type 0
  CaptureSetting = Setting env "AUDIT_CAPTURE_REQUESTS" parse_bool true

  abbrev pub SizeSetting : Option ℤ → Type 0
  SizeSetting = Setting env "BATCH_SIZE" atoi (pos 100)

  abbrev pub IntervalSetting : Option ℤ → Type 0
  IntervalSetting = Setting env "BATCH_INTERVAL" parse_duration second

  -- The outcomes of Load, with the first variable that is at fault.
  pub data LoadOutcome : Loaded Config → Type 0 where
    bad_capture : CaptureSetting none → LoadOutcome (err invalid_capture_requests)
    bad_size :
        {capture : Bool}
        → CaptureSetting (some capture)
        → SizeSetting none
        → LoadOutcome (err invalid_batch_size)
    bad_interval :
        {capture : Bool} {size : ℤ}
        → CaptureSetting (some capture)
        → SizeSetting (some size)
        → IntervalSetting none
        → LoadOutcome (err invalid_batch_interval)
    no_dsn :
        {capture : Bool} {size interval : ℤ}
        → CaptureSetting (some capture)
        → SizeSetting (some size)
        → IntervalSetting (some interval)
        → ¬ IsGiven env "CLICKHOUSE_DSN"
        → LoadOutcome (err dsn_required)
    loaded :
        {capture : Bool} {size interval : ℤ}
        → CaptureSetting (some capture)
        → SizeSetting (some size)
        → IntervalSetting (some interval)
        → IsGiven env "CLICKHOUSE_DSN"
        → LoadOutcome (ok (config_of parse_duration git env capture size interval))

  capture_setting :
      {o : Option Bool} → get_env_bool env "AUDIT_CAPTURE_REQUESTS" true ≡ o → CaptureSetting o
  unfolding get_env_bool
  capture_setting e =
      subst CaptureSetting e (get_parsed-Setting env "AUDIT_CAPTURE_REQUESTS" parse_bool true)

  size_setting : {o : Option ℤ} → get_env_int env "BATCH_SIZE" (pos 100) ≡ o → SizeSetting o
  unfolding get_env_int
  size_setting e = subst SizeSetting e (get_parsed-Setting env "BATCH_SIZE" atoi (pos 100))

  interval_setting :
      {o : Option ℤ}
      → get_env_duration parse_duration git env "BATCH_INTERVAL" second ≡ o
      → IntervalSetting o
  unfolding get_env_duration
  interval_setting e =
      subst IntervalSetting e (get_parsed-Setting env "BATCH_INTERVAL" parse_duration second)

  -- Load returns a configuration exactly when the three parsed variables are well formed or unset and
  -- CLICKHOUSE_DSN is not empty. Otherwise its error names the first fault, in the order
  -- AUDIT_CAPTURE_REQUESTS, BATCH_SIZE, BATCH_INTERVAL, CLICKHOUSE_DSN.
  pub load-LoadOutcome : LoadOutcome (load parse_duration git env)
  unfolding load config_of
  load-LoadOutcome = elim (Option-cases (get_env_bool env "AUDIT_CAPTURE_REQUESTS" true)) [
    | inl c ↦ rw c (bad_capture (capture_setting c))
    | inr (capture, c) ↦ elim (Option-cases (get_env_int env "BATCH_SIZE" (pos 100))) [
      | inl s ↦ rw (c, s) (bad_size (capture_setting c) (size_setting s))
      | inr (size, s) ↦
          elim (Option-cases (get_env_duration parse_duration git env "BATCH_INTERVAL" second)) [
            | inl i ↦
                rw (c, s, i)
                  (bad_interval (capture_setting c) (size_setting s) (interval_setting i))
            | inr (interval, i) ↦ elim (Bool-cases (is_nil (get_env env "CLICKHOUSE_DSN" []))) [
              | inl d ↦
                  rw (c, s, i, d)
                    (no_dsn (capture_setting c) (size_setting s) (interval_setting i)
                      (get_env-missing env "CLICKHOUSE_DSN" d))
              | inr d ↦
                  rw (c, s, i, d)
                    (loaded (capture_setting c) (size_setting s) (interval_setting i)
                      (get_env-IsGiven env "CLICKHOUSE_DSN" d))
            ]
          ]
    ]
  ]

-- A BATCH_SIZE that is a negative integer passes Load, with the other variables as they should be, but
-- the batcher cannot be made from the loaded configuration: NewBatcher panics.
pub load-negative_size :
    {E : Type 0} (most : ℕ) (parse_duration : Bytes → Option ℤ) (git : Option Bytes)
    (env : Environment) (size : Bytes) (n : ℕ) (c : ℕ) (dsn : Bytes)
    → env (codes "AUDIT_CAPTURE_REQUESTS") ≡ none
    → env (codes "BATCH_SIZE") ≡ some size
    → atoi size ≡ some (negsuc n)
    → env (codes "BATCH_INTERVAL") ≡ none
    → env (codes "CLICKHOUSE_DSN") ≡ some (c ∷ dsn)
    → (cfg : Config) × (load parse_duration git env ≡ ok cfg)
      × (new_batcher {E = E} most cfg.batch_size cfg.batch_interval ≡ none)
unfolding load config_of get_env_bool get_env_int get_env_duration get_env new_batcher
load-negative_size most parse_duration git env size n c dsn ec es ea ei ed =
    (config_of parse_duration git env true (negsuc n) second, rw (ec, es, ea, ei, ed) refl, refl)
