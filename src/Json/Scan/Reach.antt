-- ===== src/Json/Scan/Reach.antt =====
-- What it is for the scanner to go over a document.
use codesteward_audit_proxy.Base.{
  ℕ, ◌+◌, ◌≤◌, Bool, true, Option, List, [], ◌∷◌, ◌++◌, ◌≡◌, subst, ap, ◌∙◌, arith, reverse_onto,
  reversed, reverse_onto-reverse_onto, append-nil, append_assoc, length, drop, ltb,
}
use codesteward_audit_proxy.Base.Bytes.{Bytes}
use codesteward_audit_proxy.Json.Value.{Value}
use codesteward_audit_proxy.Json.Scan.{Frame, Scanner, Mode, run, max_depth}
use codesteward_audit_proxy.Json.Scan.Slices.{behind}
use codesteward_audit_proxy.Json.Scan.Grammar.{
  Document, Documents, no_documents, document, Fields, no_fields, field, write, meaning, larger,
  depth,
}
use codesteward_audit_proxy.Json.Scan.Tokens.{at, finished, entered}
use codesteward_audit_proxy.Json.Scan.Brackets.{Delimited}

-- The end of the input.
abbrev pub tail : Bytes
tail = b' ' ∷ []

-- A run comes to a state, whatever key flag and token are left over.
abbrev pub Reaches : Option Scanner → (Bool → Bytes → Option Scanner) → Type 0
Reaches q f = (k : Bool) × (t : Bytes) × (q ≡ f k t)

pub via :
    {q r : Option Scanner} {f : Bool → Bytes → Option Scanner} → q ≡ r → Reaches r f → Reaches q f
via e (k, t, h) = (k, t, e ∙ h)

pub and_then :
    {q : Option Scanner} {f g : Bool → Bytes → Option Scanner}
    → Reaches q f
    → ((k : Bool) (t : Bytes) → Reaches (f k t) g)
    → Reaches q g
and_then (k, t, h) next = via h (next k t)

pub forwards : {A : Type 0} (xs : List A) → reversed (reverse_onto xs []) ≡ xs
forwards xs = reverse_onto-reverse_onto xs [] [] ∙ append-nil xs

pub append_assoc_twice : (u v w x : Bytes) → (u ++ (v ++ w)) ++ x ≡ u ++ (v ++ (w ++ x))
append_assoc_twice u v w x = append_assoc u (v ++ w) x ∙ ap (λ y. u ++ y) (append_assoc v w x)

pub fits :
    (fs : List Frame) (n : ℕ) → length fs + (n + 1) ≤ max_depth → ltb (length fs) max_depth ≡ true
fits fs n h = ground (arith, h)

pub larger-left : (k a b : ℕ) → k + larger a b ≤ max_depth → k + a ≤ max_depth
larger-left k a b h = ground (arith, h)

pub larger-right : (k a b : ℕ) → k + larger a b ≤ max_depth → k + b ≤ max_depth
larger-right k a b h = ground (arith, h)

module _ (body : Bytes) where
  -- Behind a value, with the rest of the input to come.
  abbrev pub ended : Value → List Frame → Option Value → Bytes → ℕ → Bool → Bytes → Option Scanner
  ended v fs r rest p k t = run (finished body v p k t fs r) (rest ++ tail)

  pub moved_on :
      (v : Value) (fs : List Frame) (r : Option Value) (rest : Bytes) {q : Option Scanner} {a b : ℕ}
      → a ≡ b
      → Reaches q (ended v fs r rest a)
      → Reaches q (ended v fs r rest b)
  moved_on v fs r rest {q} e = subst (λ n. Reaches q (ended v fs r rest n)) e

  pub restated :
      (fs : List Frame) (r : Option Value) (rest : Bytes) (p : ℕ) {q : Option Scanner} {v u : Value}
      → v ≡ u
      → Reaches q (ended v fs r rest p)
      → Reaches q (ended u fs r rest p)
  restated fs r rest p {q} e = subst (λ v. Reaches q (ended v fs r rest p)) e

  -- The document is scanned wherever it stands, as far as the nesting allows.
  abbrev pub IsScanned : Document → Type 0
  IsScanned d =
      (m : Mode) (p : ℕ) (k : Bool) (t : Bytes) (fs : List Frame) (r : Option Value) (rest : Bytes)
      → length fs + depth d ≤ max_depth
      → Delimited rest
      → drop p body ≡ write d ++ rest
      → Reaches (entered (at body m p k t fs r) (write d ++ (rest ++ tail)))
          (ended (meaning d) fs r rest (behind (write d) p))

  abbrev pub AreScanned : Documents → Type 0
  AreScanned no_documents = Unit
  AreScanned (document d ds) = IsScanned d × AreScanned ds

  abbrev pub HaveScanned : Fields → Type 0
  HaveScanned no_fields = Unit
  HaveScanned (field w h d us) = IsScanned d × HaveScanned us
