-- ===== src/Config.antt =====
-- internal/config/config.go. The environment is a function; time.ParseDuration and the output of
-- git are parameters.
pub mod Laws
use codesteward_audit_proxy.Base.{
  ℕ, ◌+◌, ◌-◌, ◌*◌, ◌^◌, String, Bool, true, false, ◌||◌, Option, none, some, List, [], ◌∷◌, ltb,
  leb, within, ◌==◌, if◌then◌else◌, get_or_else, ◌>>=◌, is_nil,
}
use codesteward_audit_proxy.Base.Bytes.{Bytes, codes, eq_bytes}
use codesteward_audit_proxy.Base.Int.{ℤ, pos, negsuc}
use codesteward_audit_proxy.Audit.Scrubber.{trim_space}

pub record Config : Type 0 where
  pub proxy_addr : Bytes
  pub upstream_proxy : Bytes
  pub click_house_dsn : Bytes
  pub click_house_db : Bytes
  pub batch_size : ℤ
  pub batch_interval : ℤ
  pub log_level : Bytes
  pub audit_project : Bytes
  pub audit_branch : Bytes
  pub capture_requests : Bool
  pub scrub_patterns : Bytes
  pub sap_ai_core_base_url : Bytes
  pub sap_ai_core_auth_host : Bytes
  pub anthropic_upstream_url : Bytes
  pub openai_upstream_url : Bytes
  pub gemini_upstream_url : Bytes

pub data LoadError : Type 0 where
  invalid_capture_requests invalid_batch_size invalid_batch_interval dsn_required : LoadError

pub data Loaded (A : Type 0) : Type 0 where
  ok : A → Loaded A
  err : LoadError → Loaded A

abbrev pub Environment : Type 0
Environment = Bytes → Option Bytes

unfoldable pub get_env : Environment → String → Bytes → Bytes
get_env env key fallback = get_or_else (env (codes key)) fallback

decimal : ℕ → Bytes → Option ℕ
decimal n [] = some n
decimal n (c ∷ s) = elim (within b'0' b'9' c) [
  | true ↦ decimal (n * 10 + (c - b'0')) s
  | false ↦ none
]

abbrev signed : Bool → ℕ → Option ℤ
signed minus n =
    if minus
    then (if n == 0 then some (pos 0) else if leb n (2 ^ 63) then some (negsuc (n - 1)) else none)
    else if ltb n (2 ^ 63)
    then some (pos n)
    else none

-- The digits behind the sign: there is one at least.
unsigned : Bool → Bytes → Option ℤ
unfolding decimal
unsigned minus [] = none
unsigned minus (c ∷ s) = decimal 0 (c ∷ s) >>= signed minus

-- strconv.Atoi
unfoldable pub atoi : Bytes → Option ℤ
unfolding unsigned
atoi [] = none
atoi (c ∷ s) =
    if c == b'-'
    then unsigned true s
    else if c == b'+'
    then unsigned false s
    else unsigned false (c ∷ s)

any_of : Bytes → List Bytes → Bool
unfolding eq_bytes
any_of s [] = false
any_of s (t ∷ ts) = eq_bytes s t || any_of s ts

-- strconv.ParseBool
unfoldable pub parse_bool : Bytes → Option Bool
unfolding any_of
parse_bool s =
    if any_of s
      (codes "1" ∷ codes "t" ∷ codes "T" ∷ codes "true" ∷ codes "TRUE" ∷ codes "True" ∷ [])
    then some true
    else if any_of s
        (codes "0" ∷ codes "f" ∷ codes "F" ∷ codes "false" ∷ codes "FALSE" ∷ codes "False" ∷ [])
    then some false
    else none

-- The body of getEnvInt, getEnvBool and getEnvDuration: `none` is the parser's error.
abbrev pub get_parsed : {A : Type 0} → (Bytes → Option A) → Option Bytes → A → Option A
get_parsed parse none fallback = some fallback
get_parsed parse (some v) fallback = parse v

unfoldable pub get_env_int : Environment → String → ℤ → Option ℤ
unfolding atoi
get_env_int env key fallback = get_parsed atoi (env (codes key)) fallback

unfoldable pub get_env_bool : Environment → String → Bool → Option Bool
unfolding parse_bool
get_env_bool env key fallback = get_parsed parse_bool (env (codes key)) fallback

abbrev pub second : ℤ
second = pos 1000000000

abbrev pub or_fail : {A : Type 0} → Option A → LoadError → Loaded A
or_fail none e = err e
or_fail (some a) e = ok a

infixl 5 ◌>>>◌
abbrev pub ◌>>>◌ : {A B : Type 0} → Loaded A → (A → Loaded B) → Loaded B
ok a >>> f = f a
err e >>> f = err e

-- detectGitBranch, on the output of git, if it ran
unfoldable pub detect_git_branch : Option Bytes → Bytes
unfolding trim_space
detect_git_branch none = []
detect_git_branch (some out) = trim_space out

abbrev pub or_branch : Bytes → Bytes → Bytes
or_branch [] detected = detected
or_branch (c ∷ s) detected = c ∷ s

abbrev pub require_dsn : Config → Loaded Config
require_dsn cfg = if is_nil cfg.click_house_dsn then err dsn_required else ok cfg

module _ (parse_duration : Bytes → Option ℤ) (git : Option Bytes) (env : Environment) where
  unfoldable pub get_env_duration : String → ℤ → Option ℤ
  get_env_duration key fallback = get_parsed parse_duration (env (codes key)) fallback

  -- The fields behind AUDIT_CAPTURE_REQUESTS, BATCH_SIZE and BATCH_INTERVAL.
  unfoldable pub config_of : Bool → ℤ → ℤ → Config
  unfolding get_env detect_git_branch
  config_of capture size interval = record {
    proxy_addr = get_env env "PROXY_ADDR" (codes "127.0.0.1:8080");
    upstream_proxy = get_env env "UPSTREAM_PROXY" [];
    click_house_dsn = get_env env "CLICKHOUSE_DSN" [];
    click_house_db = get_env env "CLICKHOUSE_DB" (codes "audit");
    batch_size = size;
    batch_interval = interval;
    log_level = get_env env "LOG_LEVEL" (codes "info");
    audit_project = get_env env "AUDIT_PROJECT" [];
    audit_branch = or_branch (get_env env "AUDIT_BRANCH" []) (detect_git_branch git);
    capture_requests = capture;
    scrub_patterns = get_env env "AUDIT_SCRUB_PATTERNS" [];
    sap_ai_core_base_url = get_env env "SAP_AICORE_BASE_URL" [];
    sap_ai_core_auth_host = get_env env "SAP_AICORE_AUTH_HOST" (codes "ml.hana.ondemand.com");
    anthropic_upstream_url = get_env env "ANTHROPIC_UPSTREAM_URL" [];
    openai_upstream_url = get_env env "OPENAI_UPSTREAM_URL" [];
    gemini_upstream_url = get_env env "GEMINI_UPSTREAM_URL" [];
  }

  unfoldable pub load : Loaded Config
  unfolding get_env_bool get_env_int get_env_duration config_of
  load =
      or_fail (get_env_bool env "AUDIT_CAPTURE_REQUESTS" true) invalid_capture_requests
      >>> λ capture. or_fail (get_env_int env "BATCH_SIZE" (pos 100)) invalid_batch_size >>> λ size.
          or_fail (get_env_duration "BATCH_INTERVAL" second) invalid_batch_interval >>> λ interval.
          require_dsn (config_of capture size interval)
