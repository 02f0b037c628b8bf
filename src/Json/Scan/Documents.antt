-- ===== src/Json/Scan/Documents.antt =====
-- Every document is scanned as its value.
use codesteward_audit_proxy.Base.{
  ℕ, ◌+◌, ◌≤◌, Bool, false, true, none, some, [], ◌∷◌, ◌++◌, ◌≡◌, refl, ap, ◌∙◌, arith,
  append_assoc, All, ◌>>=◌,
}
use codesteward_audit_proxy.Base.Bytes.{Bytes}
use codesteward_audit_proxy.Json.Value.{Value}
use codesteward_audit_proxy.Json.Scan.{after, value, space, complete, run, max_depth, scan}
use codesteward_audit_proxy.Json.Scan.Slices.{behind}
use codesteward_audit_proxy.Json.Scan.Grammar.{
  Document, literal, numeral, text, sequence, structure, Documents, no_documents, document, Fields,
  no_fields, field, write, meaning, depth,
}
use codesteward_audit_proxy.Json.Scan.Tokens.{at}
use codesteward_audit_proxy.Json.Scan.Brackets.{Delimited, write-Starts, run-root}
use codesteward_audit_proxy.Json.Scan.Reach.{tail, IsScanned, AreScanned, HaveScanned}
use codesteward_audit_proxy.Json.Scan.Arrays.{
  literal-IsScanned, numeral-IsScanned, text-IsScanned, sequence-IsScanned,
}
use codesteward_audit_proxy.Json.Scan.Objects.{structure-IsScanned}

module _ (body : Bytes) where
  mutual
    document-IsScanned : (d : Document) → IsScanned body d
    document-IsScanned (literal l) = literal-IsScanned body l
    document-IsScanned (numeral c w first h) = numeral-IsScanned body c w first h
    document-IsScanned (text w h) = text-IsScanned body w h
    document-IsScanned (sequence ds) = sequence-IsScanned body ds (documents-AreScanned ds)
    document-IsScanned (structure us) = structure-IsScanned body us (fields-HaveScanned us)

    documents-AreScanned : (ds : Documents) → AreScanned body ds
    documents-AreScanned no_documents = tt
    documents-AreScanned (document d ds) = (document-IsScanned d, documents-AreScanned ds)

    fields-HaveScanned : (us : Fields) → HaveScanned body us
    fields-HaveScanned no_fields = tt
    fields-HaveScanned (field w h d us) = (document-IsScanned d, fields-HaveScanned us)

  run-spaces :
      (p : ℕ) (k : Bool) (t : Bytes) (v : Value) (rest : Bytes)
      → All (λ c. space c ≡ true) rest
      → (run (at body after p k t [] (some v)) (rest ++ tail) >>= λ s. s.result) ≡ some v
  unfolding run
  run-spaces p k t v [] h = refl
  run-spaces p k t v (c ∷ rest) h = rw (h.0) (run-spaces (p + 1) k t v rest h.1)

spaces-Delimited : (rest : Bytes) → All (λ c. space c ≡ true) rest → Delimited rest
spaces-Delimited [] h = tt
spaces-Delimited (c ∷ rest) h = rw (h.0) refl

-- Every document that is not nested too deeply is scanned as its value; space may follow it.
pub scan-write :
    (d : Document) (rest : Bytes)
    → depth d ≤ max_depth
    → All (λ c. space c ≡ true) rest
    → scan (write d ++ rest) ≡ some (meaning d)
unfolding scan complete
scan-write d rest deep h =
    let body = write d ++ rest in
    let (k, t, e) =
      document-IsScanned body d value 0 false [] [] none rest (omega (arith, deep))
        (spaces-Delimited rest h) refl in
    ap (λ q. q >>= λ s. s.result)
      (ap (run (at body value 0 false [] [] none)) (append_assoc (write d) rest tail)
        ∙ run-root body (write-Starts d) 0 false [] none (rest ++ tail)
        ∙ e)
    ∙ run-spaces body (behind (write d) 0) k t (meaning d) rest h
