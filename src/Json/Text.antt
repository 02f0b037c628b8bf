-- ===== src/Json/Text.antt =====
-- The text of a JSON string: encoding/json replaces what is not UTF-8, and resolves the escapes.
pub mod Quoted
use codesteward_audit_proxy.Base.{
  ℕ, zero, suc, ◌+◌, ◌-◌, ◌*◌, ◌/◌, ◌%◌, Bool, ◌&&◌, Option, none, some, [], ◌∷◌, ◌++◌, ltb, leb,
  within, ◌==◌, if◌then◌else◌, ◌≡◌, refl,
}
use codesteward_audit_proxy.Base.Bytes.{Bytes, codes}

abbrev continues : ℕ → Bool
continues = within 0x80 0xBF

-- The lead byte with the range that it allows its follower (the table of unicode/utf8).
abbrev second_in : ℕ → ℕ → Bool
second_in a b =
    if a == 0xE0
    then within 0xA0 0xBF b
    else if a == 0xED
    then within 0x80 0x9F b
    else if a == 0xF0
    then within 0x90 0xBF b
    else if a == 0xF4
    then within 0x80 0x8F b
    else continues b

-- How many bytes follow the lead byte in a valid encoding; `none` where there is none.
followers : ℕ → Bytes → Option ℕ
followers a (b ∷ c ∷ d ∷ s) =
    if within 0xC2 0xDF a && continues b
    then some 1
    else if within 0xE0 0xEF a && second_in a b && continues c
    then some 2
    else if within 0xF0 0xF4 a && second_in a b && continues c && continues d
    then some 3
    else none
followers a (b ∷ c ∷ []) =
    if within 0xC2 0xDF a && continues b
    then some 1
    else if within 0xE0 0xEF a && second_in a b && continues c
    then some 2
    else none
followers a (b ∷ []) = if within 0xC2 0xDF a && continues b then some 1 else none
followers a [] = none

-- U+FFFD
abbrev replacement : Bytes
replacement = 0xEF ∷ 0xBF ∷ 0xBD ∷ []

-- Each byte that belongs to no valid encoding becomes U+FFFD; the number counts the bytes that
-- belong to the encoding at hand.
valid_text : ℕ → Bytes → Bytes
unfolding followers
valid_text n [] = []
valid_text (suc n) (a ∷ s) = a ∷ valid_text n s
valid_text zero (a ∷ s) =
    if ltb a 0x80
    then a ∷ valid_text 0 s
    else elim (followers a s) [ none ↦ replacement ++ valid_text 0 s | some n ↦ a ∷ valid_text n s ]

-- utf8.AppendRune, for a code point that is no surrogate
unfoldable pub encode_rune : ℕ → Bytes
encode_rune r =
    if ltb r 0x80
    then r ∷ []
    else if ltb r 0x800
    then (0xC0 + r / 64) ∷ (0x80 + r % 64) ∷ []
    else if ltb r 0x10000
    then (0xE0 + r / 4096) ∷ (0x80 + r / 64 % 64) ∷ (0x80 + r % 64) ∷ []
    else (0xF0 + r / 262144) ∷ (0x80 + r / 4096 % 64) ∷ (0x80 + r / 64 % 64) ∷ (0x80 + r % 64) ∷ []

-- Where `unquote` stands: in plain text, behind a backslash, or in \uXXXX with some digits to come.
pub data Escape : Type 0 where
  plain behind_backslash : Escape
  hex : ℕ → ℕ → Escape

abbrev hex_digit : ℕ → ℕ
hex_digit c = if leb c b'9' then c - b'0' else if leb c b'F' then c - b'A' + 10 else c - b'a' + 10

abbrev escaped : ℕ → ℕ
escaped c =
    if c == b'b'
    then 8
    else if c == b'f'
    then 12
    else if c == b'n'
    then 10
    else if c == b'r'
    then 13
    else if c == b't'
    then 9
    else c

-- A high surrogate that waits for its partner.
abbrev flush_high : Option ℕ → Bytes
flush_high none = []
flush_high (some h) = replacement

-- One code unit of \uXXXX: what it writes, and the high surrogate that it leaves.
code_unit : Option ℕ → ℕ → Bytes × Option ℕ
unfolding encode_rune
code_unit none u =
    if within 0xD800 0xDBFF u
    then ([], some u)
    else if within 0xDC00 0xDFFF u
    then (replacement, none)
    else (encode_rune u, none)
code_unit (some h) u =
    if within 0xDC00 0xDFFF u
    then (encode_rune ((h - 0xD800) * 1024 + (u - 0xDC00) + 0x10000), none)
    else if within 0xD800 0xDBFF u
    then (replacement, some u)
    else (replacement ++ encode_rune u, none)

-- The bytes of a string that the scanner has accepted, without its quotes.
unescape : Escape → Option ℕ → Bytes → Bytes
unfolding code_unit
unescape e high [] = flush_high high
unescape plain high (c ∷ s) =
    if c == b'\\'
    then unescape behind_backslash high s
    else flush_high high ++ c ∷ unescape plain none s
unescape behind_backslash high (c ∷ s) =
    if c == b'u'
    then unescape (hex 3 0) high s
    else flush_high high ++ escaped c ∷ unescape plain none s
unescape (hex (suc n) u) high (c ∷ s) = unescape (hex n (u * 16 + hex_digit c)) high s
unescape (hex zero u) high (c ∷ s) =
    let (out, high') = code_unit high (u * 16 + hex_digit c) in out ++ unescape plain high' s

-- The decoded text of a string's bytes.
unfoldable pub unquote : Bytes → Bytes
unfolding unescape valid_text
unquote s = unescape plain none (valid_text 0 s)

escapes :
    unquote (codes "a\\n\\u00e9\\ud83d\\ude00\\ud800x")
    ≡ 97 ∷ 10 ∷ 0xC3 ∷ 0xA9 ∷ 0xF0 ∷ 0x9F ∷ 0x98 ∷ 0x80 ∷ 0xEF ∷ 0xBF ∷ 0xBD ∷ 120 ∷ []
unfolding unquote
escapes = refl
