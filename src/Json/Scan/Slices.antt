-- ===== src/Json/Scan/Slices.antt =====
-- The bytes of a value, as an object's frame cuts them out of the body.
use codesteward_audit_proxy.Base.{
  ℕ, zero, suc, ◌+◌, ◌-◌, [], ◌∷◌, ◌++◌, ◌≡◌, refl, ap, ◌∙◌, arith, length, take, drop,
}
use codesteward_audit_proxy.Base.Bytes.{Bytes}

-- The position behind the bytes.
abbrev pub behind : Bytes → ℕ → ℕ
behind [] p = p
behind (c ∷ w) p = behind w (p + 1)

pub behind-append : (w v : Bytes) (p : ℕ) → behind (w ++ v) p ≡ behind v (behind w p)
behind-append [] v p = refl
behind-append (c ∷ w) v p = behind-append w v (p + 1)

pub behind-length : (w : Bytes) (p : ℕ) → behind w p ≡ p + length w
behind-length [] p = omega arith
behind-length (c ∷ w) p = omega (arith, behind-length w (p + 1))

drop-drop : (p : ℕ) (body : Bytes) → drop (p + 1) body ≡ drop 1 (drop p body)
drop-drop zero body = refl
drop-drop (suc p) [] = ground arith
drop-drop (suc p) (c ∷ body) = ground (arith, drop-drop p body)

pub drop-next : (p c : ℕ) (body x : Bytes) → drop p body ≡ c ∷ x → drop (p + 1) body ≡ x
drop-next p c body x e = drop-drop p body ∙ ap (drop 1) e

pub drop-behind :
    (w : Bytes) (p : ℕ) (body rest : Bytes)
    → drop p body ≡ w ++ rest
    → drop (behind w p) body ≡ rest
drop-behind [] p body rest e = e
drop-behind (c ∷ w) p body rest e =
    drop-behind w (p + 1) body rest (drop-next p c body (w ++ rest) e)

take-length : (w rest : Bytes) → take (length w) (w ++ rest) ≡ w
take-length [] rest = refl
take-length (c ∷ w) rest = ap (λ v. c ∷ v) (take-length w rest)

-- The bytes of a value, as an object's frame cuts them out.
pub take-drop :
    (w : Bytes) (p : ℕ) (body rest : Bytes)
    → drop p body ≡ w ++ rest
    → take (behind w p - p) (drop p body) ≡ w
take-drop w p body rest e =
    let size : behind w p - p ≡ length w = omega (arith, behind-length w p) in
    rw (e, size) (take-length w rest)
