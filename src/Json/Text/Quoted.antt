-- ===== src/Json/Text/Quoted.antt =====
-- What encoding/json writes for a text of ASCII is read as that text.
use codesteward_audit_proxy.Base.{
  ℕ, ◌+◌, ◌*◌, ◌/◌, ◌%◌, ◌<◌, true, none, [], ◌∷◌, ◌++◌, ltb, ◌≡◌, refl, ap, ◌∙◌, arith, All-append,
}
use codesteward_audit_proxy.Base.Bytes.{Bytes}
use codesteward_audit_proxy.Json.Quote.{
  hexadecimal, quote_byte, quote, Ascii, quotation, backslash, backspace, form_feed, newline,
  return, tab, Quoted, kept, slashed, unicode, quote_byte-Quoted,
}
use codesteward_audit_proxy.Json.Text.{
  valid_text, hex_digit, code_unit, encode_rune, unescape, plain, unquote,
}

valid_text-Ascii : (s : Bytes) → Ascii s → valid_text 0 s ≡ s
unfolding valid_text
valid_text-Ascii [] h = refl
valid_text-Ascii (c ∷ s) h =
    let low : ltb c 128 ≡ true = ground (arith, h.0) in rw (low, valid_text-Ascii s h.1) refl

hexadecimal_ascii : (n : ℕ) → n < 16 → hexadecimal n < 128
hexadecimal_ascii n h = ground (arith, h)

hex_digit-hexadecimal : (n : ℕ) → n < 16 → hex_digit (hexadecimal n) ≡ n
hex_digit-hexadecimal n h = ground (arith, h)

Quoted-Ascii : {c : ℕ} {w : Bytes} → c < 128 → Quoted c w → Ascii w
Quoted-Ascii h (kept n m l) = (h, tt)
Quoted-Ascii h (slashed d quotation) = omega arith
Quoted-Ascii h (slashed d backslash) = omega arith
Quoted-Ascii h (slashed d backspace) = omega arith
Quoted-Ascii h (slashed d form_feed) = omega arith
Quoted-Ascii h (slashed d newline) = omega arith
Quoted-Ascii h (slashed d return) = omega arith
Quoted-Ascii h (slashed d tab) = omega arith
Quoted-Ascii {c} h unicode = (
  omega arith,
  (
    omega arith,
    (
      omega arith,
      (
        omega arith,
        (
          hexadecimal_ascii (c / 16) (omega (arith, h)),
          (hexadecimal_ascii (c % 16) (omega arith), tt),
        ),
      ),
    ),
  ),
)

quote-Ascii : (s : Bytes) → Ascii s → Ascii (quote s)
unfolding quote
quote-Ascii [] h = tt
quote-Ascii (c ∷ s) h =
    All-append (λ d. d < 128) (quote_byte c) (quote s) (Quoted-Ascii h.0 (quote_byte-Quoted c))
      (quote-Ascii s h.1)

code_unit-ascii : (c : ℕ) → c < 128 → code_unit none c ≡ (c ∷ [], none)
unfolding code_unit encode_rune
code_unit-ascii c h = ground (arith, h)

unescape-Quoted :
    {c : ℕ} {w : Bytes}
    → c < 128
    → Quoted c w
    → (s : Bytes) → unescape plain none (w ++ s) ≡ c ∷ unescape plain none s
unfolding unescape
unescape-Quoted h (kept n m l) s = rw m refl
unescape-Quoted h (slashed d quotation) s = refl
unescape-Quoted h (slashed d backslash) s = refl
unescape-Quoted h (slashed d backspace) s = refl
unescape-Quoted h (slashed d form_feed) s = refl
unescape-Quoted h (slashed d newline) s = refl
unescape-Quoted h (slashed d return) s = refl
unescape-Quoted h (slashed d tab) s = refl
unescape-Quoted {c} h unicode s =
    let value : (0 + hex_digit (hexadecimal (c / 16))) * 16 + hex_digit (hexadecimal (c % 16)) ≡ c =
      rw
        (
          hex_digit-hexadecimal (c / 16) (omega (arith, h)),
          hex_digit-hexadecimal (c % 16) (omega arith),
        )
        (omega arith) in
    ap (λ p. p.0 ++ unescape plain p.1 s) (ap (code_unit none) value ∙ code_unit-ascii c h)

unescape-quote : (s : Bytes) → Ascii s → unescape plain none (quote s) ≡ s
unfolding quote unescape
unescape-quote [] h = refl
unescape-quote (c ∷ s) h =
    unescape-Quoted h.0 (quote_byte-Quoted c) (quote s) ∙ ap (λ t. c ∷ t) (unescape-quote s h.1)

pub unquote-quote : (s : Bytes) → Ascii s → unquote (quote s) ≡ s
unfolding unquote
unquote-quote s h =
    ap (unescape plain none) (valid_text-Ascii (quote s) (quote-Ascii s h)) ∙ unescape-quote s h
