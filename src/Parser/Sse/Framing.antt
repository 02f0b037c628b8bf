-- ===== src/Parser/Sse/Framing.antt =====
-- A text that is framed as server-sent events, read by the loop header of the streaming parsers.
use codesteward_audit_proxy.Base.{
  ◌+◌, ◌<◌, ◌≡◌, refl, sym, ap, ◌∙◌, subst, false, Option, none, some, List, [], ◌∷◌, ◌++◌, arith,
  length, is_nil, All,
}
use codesteward_audit_proxy.Base.Bytes.{Bytes, codes, eq_bytes, strip_prefix, split}
use codesteward_audit_proxy.Base.Split.{Lacks, split-line, split-separator}
use codesteward_audit_proxy.Parser.Types.{ParseError}
use codesteward_audit_proxy.Parser.Sse.{max_token, lines, scan_error, data_line}
use codesteward_audit_proxy.Parser.Sse.Laws.{
  chomp, lines_of, Fits, Scanned, all_lines, stopped, scan-Scanned,
}

-- The events of a stream: each payload in a data line with an empty line behind it.
abbrev pub frame : List Bytes → Bytes
frame [] = []
frame (p ∷ ps) = codes "data: " ++ (p ++ b'\n' ∷ b'\n' ∷ frame ps)

-- A payload that one line carries.
pub record IsPayload (p : Bytes) : Type 0 where
  pub not_empty : is_nil p ≡ false
  pub not_done : eq_bytes p (codes "[DONE]") ≡ false
  pub one_line : Lacks b'\n' p
  pub no_return : chomp p ≡ p
  pub short : length p + 6 < max_token

-- The payloads of the lines that the loop goes on with.
unfoldable pub payloads : List Bytes → List Bytes
payloads [] = []
payloads (l ∷ ls) = elim (data_line l) [ none ↦ payloads ls | some p ↦ p ∷ payloads ls ]

abbrev data_of : Bytes → Bytes
data_of p = codes "data: " ++ p

abbrev pieces : List Bytes → List Bytes
pieces [] = [] ∷ []
pieces (p ∷ ps) = data_of p ∷ [] ∷ pieces ps

split-frame : (ps : List Bytes) → All IsPayload ps → split b'\n' (frame ps) ≡ pieces ps
split-frame [] h = unfold split in refl
split-frame (p ∷ ps) h =
    split-line b'\n' (data_of p) (b'\n' ∷ frame ps)
      (refl, (refl, (refl, (refl, (refl, (refl, h.0.one_line))))))
    ∙ ap (λ t. data_of p ∷ t)
        (split-separator b'\n' (frame ps) ∙ ap (λ t. [] ∷ t) (split-frame ps h.1))

pieces_fit : (ps : List Bytes) → All IsPayload ps → All Fits (pieces ps)
pieces_fit [] h = (omega arith, tt)
pieces_fit (p ∷ ps) h = (omega (arith, h.0.short), (omega arith, pieces_fit ps h.1))

lines_of_blank : (ps : List Bytes) → lines_of ([] ∷ pieces ps) ≡ [] ∷ lines_of (pieces ps)
lines_of_blank [] = refl
lines_of_blank (p ∷ ps) = refl

chomp-data_of : (p : Bytes) → is_nil p ≡ false → chomp p ≡ p → chomp (data_of p) ≡ data_of p
chomp-data_of [] n e = cc
chomp-data_of (c ∷ p) n e = ap (λ t. codes "data: " ++ t) e

data_line-data_of : (p : Bytes) → IsPayload p → data_line (data_of p) ≡ some p
unfolding data_line strip_prefix
data_line-data_of p h = rw (h.not_empty, h.not_done)

payloads-kept :
    (l p : Bytes) (ls : List Bytes) → data_line l ≡ some p → payloads (l ∷ ls) ≡ p ∷ payloads ls
unfolding payloads
payloads-kept l p ls e = rw (e, payloads)

payloads-blank : (ls : List Bytes) → payloads ([] ∷ ls) ≡ payloads ls
unfolding payloads data_line strip_prefix
payloads-blank ls = refl

payloads-lines_of : (ps : List Bytes) → All IsPayload ps → payloads (lines_of (pieces ps)) ≡ ps
payloads-lines_of [] h = unfold payloads in refl
payloads-lines_of (p ∷ ps) h =
    ap (λ l. payloads (l ∷ lines_of ([] ∷ pieces ps))) (chomp-data_of p h.0.not_empty h.0.no_return)
    ∙ payloads-kept (data_of p) p (lines_of ([] ∷ pieces ps)) (data_line-data_of p h.0)
    ∙ ap (λ qs. p ∷ qs)
        (ap payloads (lines_of_blank ps)
          ∙ payloads-blank (lines_of (pieces ps))
          ∙ payloads-lines_of ps h.1)

Scanned-fitting :
    {body : Bytes} {ls : List Bytes} {e : Option ParseError}
    → Scanned body ls e
    → All Fits (split b'\n' body)
    → (ls ≡ lines_of (split b'\n' body)) × (e ≡ none)
Scanned-fitting (all_lines fits) h = (refl, refl)
Scanned-fitting (stopped long) h = absurd (long h)

-- Payloads that are framed as server-sent events come back as they were, in order, and the scanner has
-- no error. A payload is a text of one line that is not empty, is not the end mark, does not end in
-- a carriage return, and fits the scanner's buffer behind `data: `.
pub payloads-frame :
    (ps : List Bytes)
    → All IsPayload ps
    → (payloads (lines (frame ps)) ≡ ps) × (scan_error (frame ps) ≡ none)
payloads-frame ps h =
    let (read, fine) =
      Scanned-fitting (scan-Scanned (frame ps))
        (subst (All Fits) (sym (split-frame ps h)) (pieces_fit ps h)) in
    (ap payloads (read ∙ ap lines_of (split-frame ps h)) ∙ payloads-lines_of ps h, fine)
