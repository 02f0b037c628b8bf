-- ===== src/Proxy/ReverseProxy.antt =====
-- What httputil.ReverseProxy does around the director and the transport, for the use that
-- internal/proxy/handler.go makes of it. Trailers and informational answers are left out.
pub mod Laws
use codesteward_audit_proxy.Base.{
  Bool, true, false, ◌&&◌, ◌||◌, Option, none, some, List, [], ◌∷◌, ◌++◌, within, if◌then◌else◌,
  is_nil, map, ◌≡◌, refl,
}
use codesteward_audit_proxy.Base.Bytes.{
  Bytes, codes, eq_bytes, trim_left, trim_right, split, lower_byte,
}
use codesteward_audit_proxy.Proxy.Http.{canonical_key, Header, remove_key, header_get, Request}

-- The values under a canonical key.
unfoldable pub header_values : Bytes → Header → List Bytes
unfolding eq_bytes
header_values key [] = []
header_values key ((k, v) ∷ h) =
    let rest = header_values key h in if eq_bytes k key then v ∷ rest else rest

-- Header.Set, at a canonical key
abbrev pub header_set : Bytes → Bytes → Header → Header
header_set key v h = remove_key key h ++ (key, v) ∷ []

abbrev optional_space : Bytes
optional_space = b' ' ∷ b'\t' ∷ []

trim_ows : Bytes → Bytes
unfolding trim_left trim_right
trim_ows s = trim_right optional_space (trim_left optional_space s)

-- textproto.TrimString
pub trim_string : Bytes → Bytes
unfolding trim_left trim_right
trim_string s = let cut = b' ' ∷ b'\t' ∷ b'\n' ∷ b'\r' ∷ [] in trim_right cut (trim_left cut s)

any_token : Bytes → List Bytes → Bool
unfolding trim_ows eq_bytes
any_token token [] = false
any_token token (p ∷ ps) = eq_bytes (map lower_byte (trim_ows p)) token || any_token token ps

-- httpguts.HeaderValuesContainsToken, for a token in small letters
unfoldable pub contain_token : Bytes → List Bytes → Bool
unfolding any_token split
contain_token token [] = false
contain_token token (v ∷ vs) = any_token token (split b',' v) || contain_token token vs

unfoldable pub upgrade_type : Header → Bytes
unfolding contain_token header_values header_get
upgrade_type h =
    if contain_token (codes "upgrade") (header_values (codes "Connection") h)
    then header_get h "Upgrade"
    else []

-- ascii.IsPrint
is_print : Bytes → Bool
is_print [] = true
is_print (c ∷ s) = within b' ' b'~' c && is_print s

remove_listed : List Bytes → Header → Header
unfolding trim_string remove_key canonical_key
remove_listed [] h = h
remove_listed (f ∷ fs) h =
    remove_listed fs
      (if is_nil (trim_string f) then h else remove_key (canonical_key (trim_string f)) h)

-- The fields that the values of Connection name.
remove_connection : List Bytes → Header → Header
unfolding remove_listed split
remove_connection [] h = h
remove_connection (v ∷ vs) h = remove_connection vs (remove_listed (split b',' v) h)

abbrev pub hop_headers : List Bytes
hop_headers =
    codes "Connection"
    ∷ codes "Proxy-Connection"
    ∷ codes "Keep-Alive"
    ∷ codes "Proxy-Authenticate"
    ∷ codes "Proxy-Authorization"
    ∷ codes "Te"
    ∷ codes "Trailer"
    ∷ codes "Transfer-Encoding"
    ∷ codes "Upgrade"
    ∷ []

remove_all : List Bytes → Header → Header
unfolding remove_key
remove_all [] h = h
remove_all (k ∷ ks) h = remove_all ks (remove_key k h)

-- removeHopByHopHeaders
unfoldable pub remove_hop_by_hop : Header → Header
unfolding remove_all remove_connection header_values
remove_hop_by_hop h =
    remove_all hop_headers (remove_connection (header_values (codes "Connection") h) h)

join_comma : List Bytes → Bytes → Bytes
join_comma [] last = last
join_comma (v ∷ vs) last = v ++ (codes ", " ++ join_comma vs last)

-- The address of the client, if RemoteAddr has one, behind the values that are there.
add_forwarded : Option Bytes → Header → Header
unfolding join_comma header_values
add_forwarded none h = h
add_forwarded (some ip) h =
    header_set (codes "X-Forwarded-For") (join_comma (header_values (codes "X-Forwarded-For") h) ip)
      h

keep_agent : Header → Header
unfolding header_values
keep_agent h =
    if is_nil (header_values (codes "User-Agent") h)
    then header_set (codes "User-Agent") [] h
    else h

-- The header for the transport: `original` is the header of the incoming request.
unfoldable pub forward_header : Option Bytes → Header → Header → Header
unfolding keep_agent add_forwarded remove_hop_by_hop contain_token header_values
forward_header client_ip original h =
    let upgrade = upgrade_type h in
    let kept = remove_hop_by_hop h in
    let with_te =
      if contain_token (codes "trailers") (header_values (codes "Te") original)
      then header_set (codes "Te") (codes "trailers") kept
      else kept in
    let with_upgrade =
      if is_nil upgrade
      then with_te
      else header_set (codes "Upgrade") upgrade
          (header_set (codes "Connection") (codes "Upgrade") with_te) in
    keep_agent (add_forwarded client_ip with_upgrade)

-- Whether the proxy forwards a request with this header at all.
unfoldable pub is_forwarded : Header → Bool
unfolding is_print
is_forwarded h = is_print (upgrade_type h)

unfoldable pub forward : Option Bytes → Header → Request → Request
unfolding forward_header
forward client_ip original req = record req {
  header = forward_header client_ip original req.header;
}

several :
    header_values
      (codes "A")
      ((codes "A", codes "1") ∷ (codes "B", codes "2") ∷ (codes "A", codes "3") ∷ [])
    ≡ codes "1" ∷ codes "3" ∷ []
unfolding header_values
several = refl

hop_by_hop :
    remove_hop_by_hop (
      (codes "Connection", codes "close, X-A")
      ∷ (codes "X-A", codes "1")
      ∷ (codes "Accept", codes "2")
      ∷ [])
    ≡ (codes "Accept", codes "2") ∷ []
unfolding remove_hop_by_hop
hop_by_hop = refl

upgrading :
    upgrade_type (
      (codes "Connection", codes "keep-alive, Upgrade") ∷ (codes "Upgrade", codes "websocket") ∷ [])
    ≡ codes "websocket"
unfolding upgrade_type
upgrading = refl
