-- ===== src/Proxy/ServeMux.antt =====
-- What http.ServeMux of Go 1.25 makes of a request whose method is not CONNECT, for the two patterns
-- that cmd/proxy/main.go registers. The path is one without percent escapes.
pub mod Laws
use codesteward_audit_proxy.Base.{
  Bool, false, not, ◌&&◌, ◌||◌, List, [], ◌∷◌, ◌++◌, ◌==◌, if◌then◌else◌, is_nil, reversed, ◌≡◌,
  refl,
}
use codesteward_audit_proxy.Base.Bytes.{Bytes, codes, eq_bytes, split}

abbrev pub pop : List Bytes → List Bytes
pop [] = []
pop (t ∷ before) = before

-- The elements in front of `s`, the last one first, with `s`: empty and `.` elements go, and `..`
-- takes the element before it away.
unfoldable pub push : List Bytes → Bytes → List Bytes
unfolding eq_bytes
push before s =
    if is_nil s || eq_bytes s (codes ".")
    then before
    else if eq_bytes s (codes "..")
    then pop before
    else s ∷ before

unfoldable pub push_all : List Bytes → List Bytes → List Bytes
unfolding push
push_all before [] = before
push_all before (s ∷ ss) = push_all (push before s) ss

-- Each element behind a slash.
abbrev pub rooted : List Bytes → Bytes
rooted [] = []
rooted (s ∷ ss) = b'/' ∷ (s ++ rooted ss)

abbrev pub rooted_or_root : List Bytes → Bytes
rooted_or_root [] = b'/' ∷ []
rooted_or_root (s ∷ ss) = rooted (s ∷ ss)

-- path.Clean, on a path that begins with a slash
unfoldable pub clean : Bytes → Bytes
unfolding push_all split
clean p = rooted_or_root (reversed (push_all [] (split b'/' p)))

abbrev pub ends_in_slash : Bytes → Bool
ends_in_slash [] = false
ends_in_slash (c ∷ []) = c == b'/'
ends_in_slash (c ∷ d ∷ s) = ends_in_slash (d ∷ s)

-- The trailing slash, which path.Clean takes away.
abbrev pub with_slash : Bool → Bytes → Bytes
with_slash trailing p = if trailing && not (eq_bytes p (codes "/")) then p ++ b'/' ∷ [] else p

abbrev pub from_root : Bytes → Bytes
from_root [] = b'/' ∷ []
from_root (c ∷ s) = if c == b'/' then c ∷ s else b'/' ∷ c ∷ s

-- cleanPath of net/http
unfoldable pub clean_path : Bytes → Bytes
unfolding clean eq_bytes
clean_path p = with_slash (ends_in_slash (from_root p)) (clean (from_root p))

-- Which pattern serves a request, or where it is sent to.
pub data Route : Type 0 where
  to_health to_handler : Route
  moved : Bytes → Route

-- `GET /healthz` also matches HEAD.
abbrev pub is_health : Bytes → Bytes → Bool
is_health method path =
    (eq_bytes method (codes "GET") || eq_bytes method (codes "HEAD"))
    && eq_bytes path (codes "/healthz")

unfoldable pub find_handler : Bytes → Bytes → Route
unfolding clean_path eq_bytes
find_handler method path =
    if eq_bytes path (clean_path path)
    then (if is_health method path then to_health else to_handler)
    else moved (clean_path path)

cleaned : clean_path (codes "//v1/./x/../messages/") ≡ codes "/v1/messages/"
unfolding clean_path
cleaned = refl

above_root : clean_path (codes "/../..") ≡ codes "/"
unfolding clean_path
above_root = refl
