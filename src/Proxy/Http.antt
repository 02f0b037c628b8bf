-- ===== src/Proxy/Http.antt =====
-- What the proxy reads and writes of net/http: header maps with canonical keys, requests, responses.
pub mod Lookup
use codesteward_audit_proxy.Base.{
  ℕ, String, ◌≡◌, refl, Bool, true, ◌&&◌, ◌||◌, List, [], ◌∷◌, within, ◌==◌, if◌then◌else◌,
}
use codesteward_audit_proxy.Base.Bytes.{Bytes, codes, eq_bytes, mem_byte, lower_byte, upper_byte}
use codesteward_audit_proxy.Base.Int.{ℤ}

-- The bytes of a header field name (RFC 7230).
is_token : ℕ → Bool
is_token c =
    within b'0' b'9' c
    || within b'a' b'z' c
    || within b'A' b'Z' c
    || mem_byte c (codes "!#$%&'*+-.^_`|~")

all_tokens : Bytes → Bool
unfolding is_token
all_tokens [] = true
all_tokens (c ∷ s) = is_token c && all_tokens s

-- A letter at the beginning or behind a dash is a capital, any other is small.
capitalize : Bool → Bytes → Bytes
capitalize first [] = []
capitalize first (c ∷ s) = (if first then upper_byte c else lower_byte c) ∷ capitalize (c == b'-') s

-- http.CanonicalHeaderKey
unfoldable pub canonical_key : Bytes → Bytes
unfolding all_tokens capitalize
canonical_key key = if all_tokens key then capitalize true key else key

-- A header map, its keys canonical; a key with several values stands as often, in their order.
abbrev pub Header : Type 0
Header = List (Bytes × Bytes)

unfoldable pub find_value : Bytes → Header → Bytes
unfolding eq_bytes
find_value key [] = []
find_value key ((k, v) ∷ h) = if eq_bytes k key then v else find_value key h

unfoldable pub remove_key : Bytes → Header → Header
unfolding eq_bytes
remove_key key [] = []
remove_key key ((k, v) ∷ h) =
    let rest = remove_key key h in if eq_bytes k key then rest else (k, v) ∷ rest

-- Header.Get
unfoldable pub header_get : Header → String → Bytes
unfolding canonical_key find_value
header_get h key = find_value (canonical_key (codes key)) h

-- Header.Del
unfoldable pub header_del : Header → String → Header
unfolding canonical_key remove_key
header_del h key = remove_key (canonical_key (codes key)) h

-- What is used of a url.URL.
pub record Url : Type 0 where
  pub scheme : Bytes
  pub host : Bytes
  pub path : Bytes
  pub query : Bytes

-- The body of a request: nil or NoBody, or what io.ReadAll makes of it.
pub data RequestBody : Type 0 where
  no_body : RequestBody
  readable : Bytes → RequestBody
  unreadable : RequestBody

pub record Request : Type 0 where
  pub method : Bytes
  pub host : Bytes
  pub url : Url
  pub header : Header
  pub body : RequestBody

pub record Response : Type 0 where
  pub status_code : ℤ
  pub header : Header
  pub body : Bytes

canonical : canonical_key (codes "X-Session-ID") ≡ codes "X-Session-Id"
unfolding canonical_key
canonical = refl
