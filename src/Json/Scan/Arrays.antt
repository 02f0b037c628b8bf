-- ===== src/Json/Scan/Arrays.antt =====
-- The scanner goes over literals, numbers, texts and arrays.
use codesteward_audit_proxy.Base.{
  ℕ, ◌+◌, ◌≤◌, Bool, false, Option, List, [], ◌∷◌, ◌++◌, ◌≡◌, refl, sym, ap, ◌∙◌, arith,
  reverse_onto, reversed, reverse_onto-reverse_onto, append-nil, append_assoc, length, drop,
}
use codesteward_audit_proxy.Base.Bytes.{Bytes, codes}
use codesteward_audit_proxy.Json.Value.{Value, number, array}
use codesteward_audit_proxy.Json.Scan.{
  Frame, in_array, Mode, value, value_or_end, complete, Number, in_number, run, items_of, max_depth,
}
use codesteward_audit_proxy.Json.Scan.Slices.{behind, behind-append, drop-next, drop-behind}
use codesteward_audit_proxy.Json.Scan.Grammar.{
  IsText, Literal, Document, literal, numeral, text, sequence, Documents, no_documents, document,
  IsNumber, Leads, write, write_all, meaning, meanings, depth, depth_all,
}
use codesteward_audit_proxy.Json.Scan.Tokens.{
  at, finished, entered, run-IsNumber, entered-literal, entered-Leads,
}
use codesteward_audit_proxy.Json.Scan.Brackets.{
  Delimited, write_all-Starts, run-first, run-item, run-close_array, run-no_items, run-comma_array,
  entered-array, entered-text,
}
use codesteward_audit_proxy.Json.Scan.Reach.{
  tail, Reaches, via, and_then, forwards, fits, larger-left, larger-right, ended, moved_on,
  restated, IsScanned, AreScanned,
}

module _ (body : Bytes) where
  run-number :
      {c : ℕ} {n : Number} {w : Bytes}
      → Leads c n
      → IsNumber n w
      → (m : Mode) (p : ℕ) (k : Bool) (t : Bytes) (fs : List Frame) (r : Option Value)
        (rest : Bytes)
      → Delimited rest
      → Reaches
          (entered (at body m p k t fs r) (c ∷ w ++ (rest ++ tail)))
          (ended body (number (c ∷ w)) fs r rest (behind (c ∷ w) p))
  run-number {c} {n} {w} first h m p k t fs r rest d = (
    k,
    reverse_onto w (c ∷ []),
    entered-Leads body first m p k t fs r (w ++ (rest ++ tail))
        ∙ number_before rest d
        ∙ ap
            (λ v.
              run (finished body (number v) (behind w (p + 1)) k (reverse_onto w (c ∷ [])) fs r)
                (rest ++ tail))
            (reverse_onto-reverse_onto w (c ∷ []) [] ∙ ap (λ v. c ∷ v) (append-nil w)),
  )
    where
      number_before :
          (rest : Bytes)
          → Delimited rest
          → run (at body (in_number n) (p + 1) k (c ∷ []) fs r) (w ++ (rest ++ tail))
            ≡ run
                (finished body
                  (number (reversed (reverse_onto w (c ∷ []))))
                  (behind w (p + 1))
                  k
                  (reverse_onto w (c ∷ []))
                  fs
                  r)
                (rest ++ tail)
      number_before [] d = run-IsNumber body h b' ' refl (p + 1) k (c ∷ []) fs r []
      number_before (b ∷ s) d = run-IsNumber body h b d (p + 1) k (c ∷ []) fs r (s ++ tail)

  pub literal-IsScanned : (l : Literal) → IsScanned body (literal l)
  unfolding write meaning
  literal-IsScanned l m p k t fs r rest deep d e =
      (k, t, entered-literal body l m p k t fs r (rest ++ tail))

  pub numeral-IsScanned :
      (c : ℕ) {n : Number} (w : Bytes) (first : Leads c n) (h : IsNumber n w)
      → IsScanned body (numeral c w first h)
  unfolding write meaning
  numeral-IsScanned c w first h m p k t fs r rest deep d e = run-number first h m p k t fs r rest d

  pub text-IsScanned : (w : Bytes) (h : IsText w) → IsScanned body (text w h)
  unfolding write meaning
  text-IsScanned w h m p k t fs r rest deep d e = (
    false,
    reversed w,
    ap (entered (at body m p k t fs r))
          (ap (λ v. b'"' ∷ v) (append_assoc w (codes "\"") (rest ++ tail)))
        ∙ entered-text body h m p k t fs r (rest ++ tail)
        ∙ ap
            (λ q. run (finished body (meaning (text w h)) q false (reversed w) fs r) (rest ++ tail))
            (sym (behind-append w (codes "\"") (p + 1))),
  )

  -- The items from one on, up to the closing bracket.
  run-items :
      (d : Document) (ds : Documents)
      → IsScanned body d
      → AreScanned body ds
      → (m : Mode) (p : ℕ) (k : Bool) (t : Bytes) (vs : List Value) (fs : List Frame)
        (r : Option Value) (rest : Bytes)
      → length (in_array vs ∷ fs) + depth_all (document d ds) ≤ max_depth
      → drop p body ≡ write_all (document d ds) ++ b']' ∷ rest
      → Reaches
          (entered
            (at body m p k t (in_array vs ∷ fs) r)
            (write_all (document d ds) ++ b']' ∷ (rest ++ tail)))
          (ended body
            (array (items_of (reversed (reverse_onto (meanings (document d ds)) vs))))
            fs
            r
            rest
            (behind (write_all (document d ds)) p + 1))
  unfolding write meaning depth complete
  run-items d no_documents scanned all m p k t vs fs r rest deep e =
      and_then
        (scanned m p k t (in_array vs ∷ fs) r (b']' ∷ rest)
          (larger-left (length (in_array vs ∷ fs)) (depth d) 0 deep) refl e)
        (λ k' t'. (
          k',
          t',
          run-close_array body (behind (write d) p) k' t' (meaning d ∷ vs) fs r (rest ++ tail),
        ))
  run-items d (document a ds) scanned all m p k t vs fs r rest deep e =
      let items = write_all (document a ds) in
      let q = behind (write d) p in
      let before : drop p body ≡ write d ++ b',' ∷ (items ++ b']' ∷ rest) =
        e ∙ append_assoc (write d) (b',' ∷ items) (b']' ∷ rest) in
      and_then
        (via
          (ap (entered (at body m p k t (in_array vs ∷ fs) r)) (
            append_assoc (write d) (b',' ∷ items) (b']' ∷ (rest ++ tail))
            ∙ ap (λ v. write d ++ b',' ∷ v) (sym (append_assoc items (b']' ∷ rest) tail))))
          (scanned m p k t (in_array vs ∷ fs) r (b',' ∷ (items ++ b']' ∷ rest))
            (larger-left (length (in_array vs ∷ fs)) (depth d) (depth_all (document a ds)) deep)
            refl before))
        (λ k' t'.
          via
            (run-comma_array body q k' t' (meaning d ∷ vs) fs r ((items ++ b']' ∷ rest) ++ tail)
              ∙ ap (run (at body value (q + 1) k' t' (in_array (meaning d ∷ vs) ∷ fs) r))
                  (append_assoc items (b']' ∷ rest) tail)
              ∙ run-item body (write_all-Starts a ds) (q + 1) k' t' (meaning d ∷ vs) fs r
                  (b']' ∷ (rest ++ tail)))
            (moved_on body
              (array
                (items_of (reversed (reverse_onto (meanings (document d (document a ds))) vs))))
              fs r rest (ap (λ n. n + 1) (sym (behind-append (write d) (b',' ∷ items) p)))
              (run-items a ds all.0 all.1 value (q + 1) k' t' (meaning d ∷ vs) fs r rest
                (larger-right (length (in_array vs ∷ fs)) (depth d) (depth_all (document a ds))
                  deep)
                (drop-next q b',' body (items ++ b']' ∷ rest)
                  (drop-behind (write d) p body (b',' ∷ (items ++ b']' ∷ rest)) before)))))

  pub sequence-IsScanned : (ds : Documents) → AreScanned body ds → IsScanned body (sequence ds)
  unfolding write meaning depth
  sequence-IsScanned no_documents all m p k t fs r rest deep d e = (
    k,
    t,
    entered-array body m p k t fs r (b']' ∷ (rest ++ tail)) (fits fs 0 deep)
        ∙ run-no_items body (p + 1) k t fs r (rest ++ tail)
        ∙ run-close_array body (p + 1) k t [] fs r (rest ++ tail),
  )
  sequence-IsScanned (document a ds) all m p k t fs r rest deep d e =
      let items = write_all (document a ds) in
      via
        (ap (entered (at body m p k t fs r))
            (ap (λ v. b'[' ∷ v) (append_assoc items (codes "]") (rest ++ tail)))
          ∙ entered-array body m p k t fs r (items ++ b']' ∷ (rest ++ tail))
              (fits fs (depth_all (document a ds)) deep)
          ∙ run-first body (write_all-Starts a ds) (p + 1) k t [] fs r (b']' ∷ (rest ++ tail)))
        (moved_on body (meaning (sequence (document a ds))) fs r rest
          (sym (behind-append items (codes "]") (p + 1)))
          (restated body fs r rest (behind items (p + 1) + 1)
            (ap (λ x. array (items_of x)) (forwards (meanings (document a ds))))
            (run-items a ds all.0 all.1 value_or_end (p + 1) k t [] fs r rest (omega (arith, deep))
              (drop-next p b'[' body ((items ++ codes "]") ++ rest) e
                ∙ append_assoc items (codes "]") rest))))
