-- ===== src/Json/Scan/Quoted.antt =====
-- What encoding/json writes for a text of ASCII is a text of the grammar.
use codesteward_audit_proxy.Base.{ℕ, ◌/◌, ◌%◌, ◌<◌, true, [], ◌∷◌, ◌++◌, ◌≡◌, refl, ap, arith}
use codesteward_audit_proxy.Base.Bytes.{Bytes}
use codesteward_audit_proxy.Json.Quote.{
  hexadecimal, quote, Ascii, quotation, backslash, backspace, form_feed, newline, return, tab,
  Quoted, kept, slashed, unicode, quote_byte-Quoted,
}
use codesteward_audit_proxy.Json.Text.Quoted.{unquote-quote}
use codesteward_audit_proxy.Json.Value.{string}
use codesteward_audit_proxy.Json.Scan
use codesteward_audit_proxy.Json.Scan.Grammar.{
  IsText, text_ended, plain, escape, code_unit, Document, Fields, field, text, meaning,
}

digit-hexadecimal : (n : ℕ) → n < 16 → Scan.hexadecimal (hexadecimal n) ≡ true
digit-hexadecimal n h = ground (arith, h)

Quoted-IsText : {c : ℕ} {w s : Bytes} → c < 128 → Quoted c w → IsText s → IsText (w ++ s)
unfolding Scan.mem_escape
Quoted-IsText {c} h (kept n m l) t = plain c n m l t
Quoted-IsText h (slashed d quotation) t = escape b'"' refl refl t
Quoted-IsText h (slashed d backslash) t = escape b'\\' refl refl t
Quoted-IsText h (slashed d backspace) t = escape b'b' refl refl t
Quoted-IsText h (slashed d form_feed) t = escape b'f' refl refl t
Quoted-IsText h (slashed d newline) t = escape b'n' refl refl t
Quoted-IsText h (slashed d return) t = escape b'r' refl refl t
Quoted-IsText h (slashed d tab) t = escape b't' refl refl t
Quoted-IsText {c} h unicode t =
    code_unit b'0' b'0' (hexadecimal (c / 16)) (hexadecimal (c % 16)) refl refl
      (digit-hexadecimal (c / 16) (omega (arith, h))) (digit-hexadecimal (c % 16) (omega arith)) t

pub quote-IsText : (s : Bytes) → Ascii s → IsText (quote s)
unfolding quote
quote-IsText [] h = text_ended
quote-IsText (c ∷ s) h = Quoted-IsText h.0 (quote_byte-Quoted c) (quote-IsText s h.1)

-- The document of a text.
abbrev pub quoted : (s : Bytes) → Ascii s → Document
quoted s h = text (quote s) (quote-IsText s h)

pub meaning-quoted : (s : Bytes) (h : Ascii s) → meaning (quoted s h) ≡ string s
unfolding meaning
meaning-quoted s h = ap string (unquote-quote s h)

abbrev pub named : (key : Bytes) → Ascii key → Document → Fields → Fields
named key h = field (quote key) (quote-IsText key h)
