-- ===== src/Proxy/Http/Lookup.antt =====
-- Lookups in a header map behind removals.
use codesteward_audit_proxy.Base.{◌≡◌, refl, ◌∙◌, inl, inr, false, [], ◌∷◌, arith, Bool-cases}
use codesteward_audit_proxy.Base.Bytes.{
  Bytes, eq_bytes, eq_bytes_sound, eq_bytes_refl, eq_bytes_iff,
}
use codesteward_audit_proxy.Proxy.Http.{Header, find_value, remove_key}

pub find_value-remove_self : (k : Bytes) (h : Header) → find_value k (remove_key k h) ≡ []
unfolding find_value remove_key
find_value-remove_self k [] = refl
find_value-remove_self k ((j, v) ∷ h) = elim (Bool-cases (eq_bytes j k)) [
  | inl same ↦ rw same (find_value-remove_self k h)
  | inr other ↦ rw other (rw other (find_value-remove_self k h))
]

pub find_value-remove_ne :
    (k j : Bytes) (h : Header)
    → eq_bytes k j ≡ false
    → find_value j (remove_key k h) ≡ find_value j h
unfolding find_value remove_key
find_value-remove_ne k j [] ne = refl
find_value-remove_ne k j ((i, v) ∷ h) ne =
    ground (arith, find_value-remove_ne k j h, eq_bytes_iff i k, eq_bytes_iff i j, eq_bytes_refl j)

-- What is missing stays missing.
pub find_value-remove_missing :
    (k j : Bytes) (h : Header) → find_value j h ≡ [] → find_value j (remove_key k h) ≡ []
find_value-remove_missing k j h missing = elim (Bool-cases (eq_bytes k j)) [
  | inl same ↦ rw (eq_bytes_sound k j same) (find_value-remove_self j h)
  | inr other ↦ find_value-remove_ne k j h other ∙ missing
]
