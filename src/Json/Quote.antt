-- ===== src/Json/Quote.antt =====
-- A text as encoding/json writes it, for the health check of cmd/proxy/main.go.
use codesteward_audit_proxy.Base.{
  ℕ, ◌+◌, ◌-◌, ◌/◌, ◌%◌, ◌<◌, ◌||◌, false, [], ◌∷◌, ◌++◌, ltb, ◌==◌, ==_iff, Bool-cases,
  if◌then◌else◌, if-elim, All, ◌≡◌, sym, subst, inl, inr,
}
use codesteward_audit_proxy.Base.Bytes.{Bytes, codes}

abbrev pub hexadecimal : ℕ → ℕ
hexadecimal n = if ltb n 10 then b'0' + n else b'a' + (n - 10)

-- A byte of a text as encoding/json writes it; bytes outside ASCII are kept.
unfoldable pub quote_byte : ℕ → Bytes
quote_byte c =
    if (c == b'"') || (c == b'\\')
    then b'\\' ∷ c ∷ []
    else if c == 8
    then codes "\\b"
    else if c == 12
    then codes "\\f"
    else if c == b'\n'
    then codes "\\n"
    else if c == b'\r'
    then codes "\\r"
    else if c == b'\t'
    then codes "\\t"
    else if ltb c 32 || (c == b'<') || (c == b'>') || (c == b'&')
    then codes "\\u00" ++ hexadecimal (c / 16) ∷ hexadecimal (c % 16) ∷ []
    else c ∷ []

unfoldable pub quote : Bytes → Bytes
unfolding quote_byte
quote [] = []
quote (c ∷ s) = quote_byte c ++ quote s

-- A byte and the one that stands for it behind a backslash.
pub data Slashed : ℕ → ℕ → Type 0 where
  quotation : Slashed b'"' b'"'
  backslash : Slashed b'\\' b'\\'
  backspace : Slashed 8 b'b'
  form_feed : Slashed 12 b'f'
  newline : Slashed b'\n' b'n'
  return : Slashed b'\r' b'r'
  tab : Slashed b'\t' b't'

-- Bytes of ASCII.
abbrev pub Ascii : Bytes → Type 0
Ascii s = All (λ c. c < 128) s

-- The three forms of a byte: as it is, behind a backslash, or as two hexadecimal digits.
pub data Quoted (c : ℕ) : Bytes → Type 0 where
  kept : (c == b'"') ≡ false → (c == b'\\') ≡ false → ltb c 32 ≡ false → Quoted c (c ∷ [])
  slashed : (d : ℕ) → Slashed c d → Quoted c (b'\\' ∷ d ∷ [])
  unicode : Quoted c (codes "\\u00" ++ hexadecimal (c / 16) ∷ hexadecimal (c % 16) ∷ [])

if-Slashed :
    {c : ℕ} {w : Bytes} (a d : ℕ)
    → Slashed a d
    → Quoted c w
    → Quoted c (if c == a then b'\\' ∷ d ∷ [] else w)
if-Slashed {c} {w} a d s q = elim (Bool-cases (c == a)) [
  | inl same ↦ rw same (slashed d (subst (λ x. Slashed x d) (sym ((==_iff c a).0 same)) s))
  | inr other ↦ rw other q
]

kept_or_unicode :
    (c : ℕ)
    → (c == b'"') ≡ false
    → (c == b'\\') ≡ false
    → Quoted c (
        if ltb c 32 || (c == b'<') || (c == b'>') || (c == b'&')
        then codes "\\u00" ++ hexadecimal (c / 16) ∷ hexadecimal (c % 16) ∷ []
        else c ∷ [])
kept_or_unicode c n m = elim (Bool-cases (ltb c 32)) [
  | inl low ↦ rw low unicode
  | inr high ↦
      if-elim (Quoted c) (ltb c 32 || (c == b'<') || (c == b'>') || (c == b'&')) unicode
        (kept n m high)
]

pub quote_byte-Quoted : (c : ℕ) → Quoted c (quote_byte c)
unfolding quote_byte
quote_byte-Quoted c = elim (Bool-cases (c == b'"')) [
  | inl quotes ↦
      rw quotes (slashed c (subst (λ x. Slashed x x) (sym ((==_iff c b'"').0 quotes)) quotation))
  | inr no_quotes ↦ elim (Bool-cases (c == b'\\')) [
    | inl slash ↦
        rw (no_quotes, slash)
          (slashed c (subst (λ x. Slashed x x) (sym ((==_iff c b'\\').0 slash)) backslash))
    | inr no_slash ↦
        rw (no_quotes, no_slash)
          (if-Slashed 8 b'b' backspace (
            if-Slashed 12 b'f' form_feed (
              if-Slashed b'\n' b'n' newline (
                if-Slashed b'\r' b'r' return
                  (if-Slashed b'\t' b't' tab (kept_or_unicode c no_quotes no_slash))))))
  ]
]
