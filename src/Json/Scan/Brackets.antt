-- ===== src/Json/Scan/Brackets.antt =====
-- The scanner at the brackets, braces, commas and colons of a document.
use codesteward_audit_proxy.Base.{
  ℕ, ◌+◌, Bool, false, true, Option, List, [], ◌∷◌, ◌++◌, ◌==◌, ◌≡◌, refl, sym, ap, ◌∙◌, arith,
  reversed, append_assoc, length, ltb,
}
use codesteward_audit_proxy.Base.Bytes.{Bytes, codes}
use codesteward_audit_proxy.Json.Text.{unquote}
use codesteward_audit_proxy.Json.Value.{Value, array, object, string}
use codesteward_audit_proxy.Json.Scan.{
  Frame, in_array, in_object, Scanner, Mode, after, key, key_or_end, value, value_or_end, colon,
  complete, begin_value, run, space, items_of, members_of, max_depth, scan,
}
use codesteward_audit_proxy.Json.Scan
use codesteward_audit_proxy.Json.Scan.Slices.{behind, behind-append}
use codesteward_audit_proxy.Json.Scan.Grammar.{
  IsText, sign, zero_digit, digit, null_literal, true_literal, false_literal, Document, literal,
  numeral, text, sequence, structure, Documents, no_documents, document, write_key, write,
  write_all, write_fields,
}
use codesteward_audit_proxy.Json.Scan.Tokens.{delimiter, at, finished, entered, run-text, run-key}

-- What comes behind a value.
abbrev pub Delimited : Bytes → Type 0
Delimited [] = Unit
Delimited (c ∷ s) = delimiter c ≡ true

-- The first byte is neither space nor a closing bracket.
abbrev pub Starts : Bytes → Type 0
Starts v = (c : ℕ) × (cs : Bytes) × (v ≡ c ∷ cs) × (space c ≡ false) × ((c == b']') ≡ false)

pub write-Starts : (d : Document) → Starts (write d)
unfolding write
write-Starts (literal null_literal) = (b'n', codes "ull", refl, refl, refl)
write-Starts (literal true_literal) = (b't', codes "rue", refl, refl, refl)
write-Starts (literal false_literal) = (b'f', codes "alse", refl, refl, refl)
write-Starts (numeral _ w sign rest) = (b'-', w, refl, refl, refl)
write-Starts (numeral _ w zero_digit rest) = (b'0', w, refl, refl, refl)
write-Starts (numeral _ w (digit c h) rest) = (c, w, refl, ground (arith, h), ground (arith, h))
write-Starts (text w t) = (b'"', w ++ b'"' ∷ [], refl, refl, refl)
write-Starts (sequence ds) = (b'[', write_all ds ++ b']' ∷ [], refl, refl, refl)
write-Starts (structure fs) = (b'{', write_fields fs ++ b'}' ∷ [], refl, refl, refl)

Starts-append : {v : Bytes} (s : Bytes) → Starts v → Starts (v ++ s)
Starts-append s (c, cs, e, plain, no_bracket) = (c, cs ++ s, ap (λ v. v ++ s) e, plain, no_bracket)

pub write_all-Starts : (d : Document) (ds : Documents) → Starts (write_all (document d ds))
unfolding write
write_all-Starts d no_documents = write-Starts d
write_all-Starts d (document a ds) =
    Starts-append (b',' ∷ write_all (document a ds)) (write-Starts d)

module _ (body : Bytes) where
  pub run-first :
      {v : Bytes}
      → Starts v
      → (p : ℕ) (k : Bool) (t : Bytes) (vs : List Value) (fs : List Frame) (r : Option Value)
        (s : Bytes)
      → run (at body value_or_end p k t (in_array vs ∷ fs) r) (v ++ s)
        ≡ entered (at body value_or_end p k t (in_array vs ∷ fs) r) (v ++ s)
  unfolding run
  run-first (c, cs, e, plain, no_bracket) p k t vs fs r s = rw e (rw (plain, no_bracket) refl)

  pub run-item :
      {v : Bytes}
      → Starts v
      → (p : ℕ) (k : Bool) (t : Bytes) (vs : List Value) (fs : List Frame) (r : Option Value)
        (s : Bytes)
      → run (at body value p k t (in_array vs ∷ fs) r) (v ++ s)
        ≡ entered (at body value p k t (in_array vs ∷ fs) r) (v ++ s)
  unfolding run
  run-item (c, cs, e, plain, no_bracket) p k t vs fs r s = rw e (rw plain refl)

  pub run-root :
      {v : Bytes}
      → Starts v
      → (p : ℕ) (k : Bool) (t : Bytes) (r : Option Value) (s : Bytes)
      → run (at body value p k t [] r) (v ++ s) ≡ entered (at body value p k t [] r) (v ++ s)
  unfolding run
  run-root (c, cs, e, plain, no_bracket) p k t r s = rw e (rw plain refl)

  pub run-member :
      {v : Bytes}
      → Starts v
      → (p : ℕ) (k : Bool) (t : Bytes) (ms : List (Bytes × Bytes × Value)) (l : Bytes) (b : ℕ)
        (fs : List Frame) (r : Option Value) (s : Bytes)
      → run (at body value p k t (in_object ms l b ∷ fs) r) (v ++ s)
        ≡ entered (at body value p k t (in_object ms l p ∷ fs) r) (v ++ s)
  unfolding run
  run-member (c, cs, e, plain, no_bracket) p k t ms l b fs r s = rw e (rw plain refl)

  pub run-close_array :
      (p : ℕ) (k : Bool) (t : Bytes) (vs : List Value) (fs : List Frame) (r : Option Value)
      (s : Bytes)
      → run (at body after p k t (in_array vs ∷ fs) r) (b']' ∷ s)
        ≡ run (finished body (array (items_of (reversed vs))) (p + 1) k t fs r) s
  unfolding run complete
  run-close_array p k t vs [] r s = refl
  run-close_array p k t vs (in_array us ∷ fs) r s = refl
  run-close_array p k t vs (in_object ms l b ∷ fs) r s = refl

  pub run-no_items :
      (p : ℕ) (k : Bool) (t : Bytes) (fs : List Frame) (r : Option Value) (s : Bytes)
      → run (at body value_or_end p k t (in_array [] ∷ fs) r) (b']' ∷ s)
        ≡ run (at body after p k t (in_array [] ∷ fs) r) (b']' ∷ s)
  unfolding run
  run-no_items p k t fs r s = refl

  pub run-close_object :
      (p : ℕ) (k : Bool) (t : Bytes) (ms : List (Bytes × Bytes × Value)) (l : Bytes) (b : ℕ)
      (fs : List Frame) (r : Option Value) (s : Bytes)
      → run (at body after p k t (in_object ms l b ∷ fs) r) (b'}' ∷ s)
        ≡ run (finished body (object (members_of (reversed ms))) (p + 1) k t fs r) s
  unfolding run complete
  run-close_object p k t ms l b [] r s = refl
  run-close_object p k t ms l b (in_array us ∷ fs) r s = refl
  run-close_object p k t ms l b (in_object ns j q ∷ fs) r s = refl

  pub run-no_members :
      (p : ℕ) (k : Bool) (t : Bytes) (fs : List Frame) (r : Option Value) (s : Bytes)
      → run (at body key_or_end p k t (in_object [] [] 0 ∷ fs) r) (b'}' ∷ s)
        ≡ run (at body after p k t (in_object [] [] 0 ∷ fs) r) (b'}' ∷ s)
  unfolding run
  run-no_members p k t fs r s = refl

  pub run-comma_array :
      (p : ℕ) (k : Bool) (t : Bytes) (vs : List Value) (fs : List Frame) (r : Option Value)
      (s : Bytes)
      → run (at body after p k t (in_array vs ∷ fs) r) (b',' ∷ s)
        ≡ run (at body value (p + 1) k t (in_array vs ∷ fs) r) s
  unfolding run
  run-comma_array p k t vs fs r s = refl

  pub run-comma_object :
      (p : ℕ) (k : Bool) (t : Bytes) (ms : List (Bytes × Bytes × Value)) (l : Bytes) (b : ℕ)
      (fs : List Frame) (r : Option Value) (s : Bytes)
      → run (at body after p k t (in_object ms l b ∷ fs) r) (b',' ∷ s)
        ≡ run (at body key (p + 1) k t (in_object ms l b ∷ fs) r) s
  unfolding run
  run-comma_object p k t ms l b fs r s = refl

  pub run-first_key :
      (p : ℕ) (k : Bool) (t : Bytes) (ms : List (Bytes × Bytes × Value)) (l : Bytes) (b : ℕ)
      (fs : List Frame) (r : Option Value) (s : Bytes)
      → run (at body key_or_end p k t (in_object ms l b ∷ fs) r) (b'"' ∷ s)
        ≡ run (at body key p k t (in_object ms l b ∷ fs) r) (b'"' ∷ s)
  unfolding run
  run-first_key p k t ms l b fs r s = refl

  -- A key and its colon.
  pub run-write_key :
      {w : Bytes}
      → IsText w
      → (p : ℕ) (k : Bool) (t : Bytes) (ms : List (Bytes × Bytes × Value)) (l : Bytes) (b : ℕ)
        (fs : List Frame) (r : Option Value) (s : Bytes)
      → run (at body key p k t (in_object ms l b ∷ fs) r) (write_key w ++ s)
        ≡ run
            (at body value
              (behind (write_key w) p)
              true
              (reversed w)
              (in_object ms (unquote w) b ∷ fs)
              r)
            s
  unfolding run
  run-write_key {w} h p k t ms l b fs r s =
      ap (run (at body Scan.text (p + 1) true [] (in_object ms l b ∷ fs) r))
        (append_assoc w (codes "\":") s)
      ∙ run-key body h (p + 1) ms l b fs r (b':' ∷ s)
      ∙ ap (λ q. run (at body value q true (reversed w) (in_object ms (unquote w) b ∷ fs) r) s)
          (sym (behind-append w (codes "\":") (p + 1)))

  pub entered-array :
      (m : Mode) (p : ℕ) (k : Bool) (t : Bytes) (fs : List Frame) (r : Option Value) (s : Bytes)
      → ltb (length fs) max_depth ≡ true
      → entered (at body m p k t fs r) (b'[' ∷ s)
        ≡ run (at body value_or_end (p + 1) k t (in_array [] ∷ fs) r) s
  unfolding begin_value
  entered-array m p k t fs r s h = rw h refl

  pub entered-object :
      (m : Mode) (p : ℕ) (k : Bool) (t : Bytes) (fs : List Frame) (r : Option Value) (s : Bytes)
      → ltb (length fs) max_depth ≡ true
      → entered (at body m p k t fs r) (b'{' ∷ s)
        ≡ run (at body key_or_end (p + 1) k t (in_object [] [] 0 ∷ fs) r) s
  unfolding begin_value
  entered-object m p k t fs r s h = rw h refl

  pub entered-text :
      {w : Bytes}
      → IsText w
      → (m : Mode) (p : ℕ) (k : Bool) (t : Bytes) (fs : List Frame) (r : Option Value) (s : Bytes)
      → entered (at body m p k t fs r) (b'"' ∷ w ++ b'"' ∷ s)
        ≡ run (finished body (string (unquote w)) (behind w (p + 1) + 1) false (reversed w) fs r) s
  unfolding begin_value
  entered-text h m p k t fs r s = run-text body h (p + 1) fs r s
