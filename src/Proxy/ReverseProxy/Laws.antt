-- ===== src/Proxy/ReverseProxy/Laws.antt =====
-- The hop-by-hop fields of a header, and those that stay.
use codesteward_audit_proxy.Base.{◌≡◌, refl, ◌∙◌, false, List, [], ◌∷◌, All, is_nil, if-elim}
use codesteward_audit_proxy.Base.Bytes.{Bytes, codes, eq_bytes, split}
use codesteward_audit_proxy.Proxy.Http.{canonical_key, Header, find_value, remove_key}
use codesteward_audit_proxy.Proxy.Http.Lookup.{
  find_value-remove_self, find_value-remove_ne, find_value-remove_missing,
}
use codesteward_audit_proxy.Proxy.ReverseProxy.{
  header_values, hop_headers, trim_string, remove_listed, remove_connection, remove_all,
  remove_hop_by_hop,
}

remove_all_missing :
    (ks : List Bytes) (j : Bytes) (h : Header)
    → find_value j h ≡ []
    → find_value j (remove_all ks h) ≡ []
unfolding remove_all
remove_all_missing [] j h missing = missing
remove_all_missing (k ∷ ks) j h missing =
    remove_all_missing ks j (remove_key k h) (find_value-remove_missing k j h missing)

remove_all_gone : (ks : List Bytes) (h : Header) → All (λ k. find_value k (remove_all ks h) ≡ []) ks
unfolding remove_all
remove_all_gone [] h = tt
remove_all_gone (k ∷ ks) h = (
  remove_all_missing ks k (remove_key k h) (find_value-remove_self k h),
  remove_all_gone ks (remove_key k h),
)

remove_all_kept :
    (ks : List Bytes) (j : Bytes) (h : Header)
    → All (λ k. eq_bytes k j ≡ false) ks
    → find_value j (remove_all ks h) ≡ find_value j h
unfolding remove_all
remove_all_kept [] j h ne = refl
remove_all_kept (k ∷ ks) j h ne =
    remove_all_kept ks j (remove_key k h) ne.1 ∙ find_value-remove_ne k j h ne.0

remove_listed_kept :
    (fs : List Bytes) (j : Bytes) (h : Header)
    → All (λ f. eq_bytes (canonical_key (trim_string f)) j ≡ false) fs
    → find_value j (remove_listed fs h) ≡ find_value j h
unfolding remove_listed
remove_listed_kept [] j h ne = refl
remove_listed_kept (f ∷ fs) j h ne =
    remove_listed_kept fs j _ ne.1
    ∙ if-elim (λ g. find_value j g ≡ find_value j h) (is_nil (trim_string f)) refl
        (find_value-remove_ne (canonical_key (trim_string f)) j h ne.0)

-- No value of Connection names the field `j`.
abbrev pub IsUnlisted : Bytes → List Bytes → Type 0
IsUnlisted j =
    All (λ v. All (λ f. eq_bytes (canonical_key (trim_string f)) j ≡ false) (split b',' v))

remove_connection_kept :
    (vs : List Bytes) (j : Bytes) (h : Header)
    → IsUnlisted j vs
    → find_value j (remove_connection vs h) ≡ find_value j h
unfolding remove_connection
remove_connection_kept [] j h ne = refl
remove_connection_kept (v ∷ vs) j h ne =
    remove_connection_kept vs j (remove_listed (split b',' v) h) ne.1
    ∙ remove_listed_kept (split b',' v) j h ne.0

-- None of the hop-by-hop fields is left.
pub remove_hop_by_hop-gone :
    (h : Header) → All (λ k. find_value k (remove_hop_by_hop h) ≡ []) hop_headers
unfolding remove_hop_by_hop
remove_hop_by_hop-gone h =
    remove_all_gone hop_headers (remove_connection (header_values (codes "Connection") h) h)

-- A field that is none of them and that Connection does not name keeps its first value.
pub remove_hop_by_hop-kept :
    (h : Header) (j : Bytes)
    → All (λ k. eq_bytes k j ≡ false) hop_headers
    → IsUnlisted j (header_values (codes "Connection") h)
    → find_value j (remove_hop_by_hop h) ≡ find_value j h
unfolding remove_hop_by_hop
remove_hop_by_hop-kept h j ne unlisted =
    remove_all_kept hop_headers j (remove_connection (header_values (codes "Connection") h) h) ne
    ∙ remove_connection_kept (header_values (codes "Connection") h) j h unlisted
