-- ===== src/Base/Bytes.antt =====
-- Go strings: sequences of bytes, with the operations of `strings` that the program calls.
use Prim.Native.Char.{code}
use Prim.Native.String.{String}
use Prim.Native.Nat.{ℕ, ◌+◌, ◌-◌}
use mathlib.Core.Path.{◌≡◌, refl, sym, ap₂}
use mathlib.Core.Logic.{◌↔◌, inl, inr}
use mathlib.Core.Bool.{Bool, true, false, ◌&&◌, ◌||◌}
use mathlib.Core.Option.{Option, none, some}
use mathlib.Core.List.{List, [], ◌∷◌, ◌++◌}
use native.Mathlib.Omega.{arith}
use codesteward_audit_proxy.Base.Tests.{
  ◌==◌, ==_iff, Bool-cases, within, if◌then◌else◌, is_some, get_or_else,
}
use codesteward_audit_proxy.Base.Lists.{reversed}

abbrev pub Bytes : Type 0
Bytes = List ℕ

-- The bytes of an ASCII literal.
abbrev pub codes : String → Bytes
codes String.[] = []
codes (String.◌∷◌ c s) = code c ∷ codes s

unfoldable pub eq_bytes : Bytes → Bytes → Bool
eq_bytes [] [] = true
eq_bytes [] (d ∷ t) = false
eq_bytes (c ∷ s) [] = false
eq_bytes (c ∷ s) (d ∷ t) = (c == d) && eq_bytes s t

pub eq_bytes_sound : (s t : Bytes) → eq_bytes s t ≡ true → s ≡ t
unfolding eq_bytes
eq_bytes_sound [] [] h = refl
eq_bytes_sound [] (d ∷ t) h = ground arith
eq_bytes_sound (c ∷ s) [] h = ground arith
eq_bytes_sound (c ∷ s) (d ∷ t) h = ground (arith, eq_bytes_sound s t)

pub eq_bytes_refl : (s : Bytes) → eq_bytes s s ≡ true
unfolding eq_bytes
eq_bytes_refl [] = refl
eq_bytes_refl (c ∷ s) = ground (arith, eq_bytes_refl s)

pub eq_bytes_iff : (s t : Bytes) → (eq_bytes s t ≡ true) ↔ (s ≡ t)
eq_bytes_iff s t = (eq_bytes_sound s t, λ e. rw e (eq_bytes_refl t))

-- `s` without the prefix, if it has it.
unfoldable pub strip_prefix : Bytes → Bytes → Option Bytes
strip_prefix [] s = some s
strip_prefix (c ∷ p) [] = none
strip_prefix (c ∷ p) (d ∷ s) = if c == d then strip_prefix p s else none

pub strip_prefix_sound : (p s : Bytes) {t : Bytes} → strip_prefix p s ≡ some t → s ≡ p ++ t
unfolding strip_prefix
strip_prefix_sound [] s e = ground arith
strip_prefix_sound (c ∷ p) [] e = cc
strip_prefix_sound (c ∷ p) (d ∷ s) {t} e = elim (Bool-cases (c == d)) [
  | inl same ↦ ap₂ ◌∷◌ (sym ((==_iff c d).0 same)) (strip_prefix_sound p s (rw same at e))
  | inr other ↦ cc (rw other at e)
]

-- strings.HasPrefix
unfoldable pub has_prefix : Bytes → Bytes → Bool
unfolding strip_prefix
has_prefix s p = is_some (strip_prefix p s)

-- strings.TrimPrefix
unfoldable pub trim_prefix : Bytes → Bytes → Bytes
unfolding strip_prefix
trim_prefix s p = get_or_else (strip_prefix p s) s

-- strings.HasSuffix
unfoldable pub has_suffix : Bytes → Bytes → Bool
unfolding has_prefix
has_suffix s p = has_prefix (reversed s) (reversed p)

-- strings.Contains
unfoldable pub contains : Bytes → Bytes → Bool
unfolding has_prefix
contains [] p = has_prefix [] p
contains (c ∷ s) p = has_prefix (c ∷ s) p || contains s p

abbrev pub mem_byte : ℕ → Bytes → Bool
mem_byte c [] = false
mem_byte c (d ∷ s) = (c == d) || mem_byte c s

-- `s` without its leading bytes that lie in `cut`.
unfoldable pub trim_left : Bytes → Bytes → Bytes
trim_left cut [] = []
trim_left cut (c ∷ s) = if mem_byte c cut then trim_left cut s else c ∷ s

-- strings.TrimRight, with a set of ASCII bytes
unfoldable pub trim_right : Bytes → Bytes → Bytes
unfolding trim_left
trim_right cut s = reversed (trim_left cut (reversed s))

-- s[:strings.LastIndex(s, c)], if the byte occurs
unfoldable pub before_last : ℕ → Bytes → Option Bytes
before_last c [] = none
before_last c (d ∷ s) = elim (before_last c s) [
  | some t ↦ some (d ∷ t)
  | none ↦ if d == c then some [] else none
]

-- strings.Split at a one-byte separator: never empty.
unfoldable pub split : ℕ → Bytes → List Bytes
split c [] = [] ∷ []
split c (d ∷ s) = elim (split c s) [
  | [] ↦ []
  | w ∷ ws ↦ if d == c then [] ∷ w ∷ ws else (d ∷ w) ∷ ws
]

abbrev pub lower_byte : ℕ → ℕ
lower_byte c = if within b'A' b'Z' c then c + 32 else c

abbrev pub upper_byte : ℕ → ℕ
upper_byte c = if within b'a' b'z' c then c - 32 else c

-- The case folding that Unicode's simple folds give, as far as an ASCII text can tell: beside A to
-- Z, the Kelvin sign (bytes 0xE2, 0x84, 0xAA) folds to k and the long s (bytes 0xC5, 0xBF) to s.
-- Other letters outside ASCII fold outside ASCII.
unfoldable pub fold_case : Bytes → Bytes
fold_case [] = []
fold_case (a ∷ []) = lower_byte a ∷ []
fold_case (a ∷ b ∷ []) =
    if (a == 0xC5) && (b == 0xBF) then b's' ∷ [] else lower_byte a ∷ lower_byte b ∷ []
fold_case (a ∷ b ∷ c ∷ s) =
    let rest = fold_case s in
    let after_two = fold_case (c ∷ s) in
    let after_one = fold_case (b ∷ c ∷ s) in
    if (a == 0xC5) && (b == 0xBF)
    then b's' ∷ after_two
    else if (a == 0xE2) && (b == 0x84) && (c == 0xAA)
    then b'k' ∷ rest
    else lower_byte a ∷ after_one

-- strings.EqualFold against a text in lower-case ASCII
unfoldable pub equal_fold : Bytes → Bytes → Bool
unfolding fold_case eq_bytes
equal_fold s t = eq_bytes (fold_case s) t

-- strings.ToLower, as far as an ASCII text can tell: the Kelvin sign becomes k and the capital I
-- with a dot (bytes 0xC4, 0xB0) becomes i. Other letters outside ASCII stay outside ASCII.
unfoldable pub to_lower : Bytes → Bytes
to_lower [] = []
to_lower (a ∷ []) = lower_byte a ∷ []
to_lower (a ∷ b ∷ []) =
    if (a == 0xC4) && (b == 0xB0) then b'i' ∷ [] else lower_byte a ∷ lower_byte b ∷ []
to_lower (a ∷ b ∷ c ∷ s) =
    let rest = to_lower s in
    let after_two = to_lower (c ∷ s) in
    let after_one = to_lower (b ∷ c ∷ s) in
    if (a == 0xC4) && (b == 0xB0)
    then b'i' ∷ after_two
    else if (a == 0xE2) && (b == 0x84) && (c == 0xAA)
    then b'k' ∷ rest
    else lower_byte a ∷ after_one

folds : equal_fold (codes "API.OpenAI.com") (codes "api.openai.com") ≡ true
unfolding equal_fold
folds = refl

host_part : before_last b':' (codes "a:b:80") ≡ some (codes "a:b")
unfolding before_last
host_part = refl

words : split b',' (codes "a,,b") ≡ codes "a" ∷ [] ∷ codes "b" ∷ []
unfolding split
words = refl

found : contains (codes "x claude-cli/1") (codes "claude-cli") ≡ true
unfolding contains
found = refl
