-- ===== src/Json/Scan/Tokens.antt =====
-- The tokens of a document, as the scanner goes over them: literals, numbers and texts.
use codesteward_audit_proxy.Base.{
  ℕ, ◌+◌, Bool, false, true, Option, none, some, List, [], ◌∷◌, ◌++◌, ◌==◌, ◌||◌, within, ◌≡◌, refl,
  ap, ◌∙◌, arith, reverse_onto, reversed, reverse_onto-reverse_onto, append-nil, ◌>>=◌, ==_iff,
}
use codesteward_audit_proxy.Base.Bytes.{Bytes}
use codesteward_audit_proxy.Json.Text.{unquote}
use codesteward_audit_proxy.Json.Value.{Value, number, string}
use codesteward_audit_proxy.Json.Scan.{
  Frame, in_array, in_object, Scanner, Mode, Number, minus, leading_zero, digits, dot, fraction,
  exponent, exponent_sign, exponent_digits, after, text, colon, in_number, in_literal, complete,
  begin_value, next_number, may_end, step_number, run, space,
}
use codesteward_audit_proxy.Json.Scan.Slices.{behind}
use codesteward_audit_proxy.Json.Scan.Grammar.{
  IsText, text_ended, plain, escape, code_unit, IsNumber, number_ended, more, Leads, sign,
  zero_digit, digit, Literal, null_literal, true_literal, false_literal, literal_value,
  write_literal,
}

-- A byte that may stand behind a value.
abbrev pub delimiter : ℕ → Bool
delimiter c = space c || (c == b',') || (c == b']') || (c == b'}')

-- A digit from 1 on is none of the other bytes.
pub other_byte :
    (c a : ℕ) → within b'1' b'9' c ≡ true → within b'1' b'9' a ≡ false → (c == a) ≡ false
other_byte c a h n = ground (arith, h, n)

next_number-delimiter :
    (n : Number) (c : ℕ) → may_end n ≡ true → delimiter c ≡ true → next_number n c ≡ none
unfolding next_number may_end
next_number-delimiter minus c h d = cc
next_number-delimiter leading_zero c h d = ground (arith, d)
next_number-delimiter digits c h d = ground (arith, d)
next_number-delimiter dot c h d = cc
next_number-delimiter fraction c h d = ground (arith, d)
next_number-delimiter exponent c h d = cc
next_number-delimiter exponent_sign c h d = cc
next_number-delimiter exponent_digits c h d = ground (arith, d)

-- A value from its first byte on.
abbrev pub entered : Scanner → Bytes → Option Scanner
entered s [] = none
entered s (c ∷ cs) =
    (begin_value s c >>= λ s'. some (record s' { position = s'.position + 1 })) >>= λ s'. run s' cs

module _ (body : Bytes) where
  abbrev pub at : Mode → ℕ → Bool → Bytes → List Frame → Option Value → Scanner
  at m p k t fs r = record {
    body = body;
    position = p;
    mode = m;
    is_key = k;
    token = t;
    stack = fs;
    result = r;
  }

  -- Behind a value that ends before the position.
  abbrev pub finished : Value → ℕ → Bool → Bytes → List Frame → Option Value → Scanner
  finished v p k t fs r = complete (at after p k t fs r) v p fs

  run-closing_quote :
      (p : ℕ) (t : Bytes) (fs : List Frame) (r : Option Value) (s : Bytes)
      → run (at text p false t fs r) (b'"' ∷ s)
        ≡ run (finished (string (unquote (reversed t))) (p + 1) false t fs r) s
  unfolding run complete
  run-closing_quote p t [] r s = refl
  run-closing_quote p t (in_array vs ∷ fs) r s = refl
  run-closing_quote p t (in_object ms l b ∷ fs) r s = refl

  pub run-IsText :
      {w : Bytes}
      → IsText w
      → (p : ℕ) (k : Bool) (t : Bytes) (fs : List Frame) (r : Option Value) (s : Bytes)
      → run (at text p k t fs r) (w ++ s) ≡ run (at text (behind w p) k (reverse_onto w t) fs r) s
  unfolding run
  run-IsText text_ended p k t fs r s = refl
  run-IsText (plain c n m l w) p k t fs r s = rw (n, l, m) (run-IsText w (p + 1) k (c ∷ t) fs r s)
  run-IsText (escape d n e w) p k t fs r s =
      rw (n, e) (run-IsText w (p + 1 + 1) k (d ∷ b'\\' ∷ t) fs r s)
  run-IsText (code_unit a b c d ha hb hc hd w) p k t fs r s =
      rw (ha, hb, hc, hd)
        (run-IsText w (p + 1 + 1 + 1 + 1 + 1 + 1) k (d ∷ c ∷ b ∷ a ∷ b'u' ∷ b'\\' ∷ t) fs r s)

  reversed-reversed : (w : Bytes) → reversed (reversed w) ≡ w
  reversed-reversed w = reverse_onto-reverse_onto w [] [] ∙ append-nil w

  -- A text and its closing quote.
  pub run-text :
      {w : Bytes}
      → IsText w
      → (p : ℕ) (fs : List Frame) (r : Option Value) (s : Bytes)
      → run (at text p false [] fs r) (w ++ b'"' ∷ s)
        ≡ run (finished (string (unquote w)) (behind w p + 1) false (reversed w) fs r) s
  unfolding run
  run-text {w} h p fs r s =
      run-IsText h p false [] fs r (b'"' ∷ s)
      ∙ run-closing_quote (behind w p) (reversed w) fs r s
      ∙ ap (λ u. run (finished (string (unquote u)) (behind w p + 1) false (reversed w) fs r) s)
          (reversed-reversed w)

  pub run-key :
      {w : Bytes}
      → IsText w
      → (p : ℕ) (ms : List (Bytes × Bytes × Value)) (l : Bytes) (b : ℕ) (fs : List Frame)
        (r : Option Value) (s : Bytes)
      → run (at text p true [] (in_object ms l b ∷ fs) r) (w ++ b'"' ∷ s)
        ≡ run (at colon (behind w p + 1) true (reversed w) (in_object ms (unquote w) b ∷ fs) r) s
  unfolding run
  run-key {w} h p ms l b fs r s =
      run-IsText h p true [] (in_object ms l b ∷ fs) r (b'"' ∷ s)
      ∙ ap
          (λ u.
            run (at colon (behind w p + 1) true (reversed w) (in_object ms (unquote u) b ∷ fs) r) s)
          (reversed-reversed w)

  run-number_end :
      (n : Number) (c : ℕ)
      → may_end n ≡ true
      → delimiter c ≡ true
      → (p : ℕ) (k : Bool) (t : Bytes) (fs : List Frame) (r : Option Value) (s : Bytes)
      → run (at (in_number n) p k t fs r) (c ∷ s)
        ≡ run (finished (number (reversed t)) p k t fs r) (c ∷ s)
  unfolding run complete
  run-number_end n c h d p k t [] r s = rw (next_number-delimiter n c h d, h, step_number) refl
  run-number_end n c h d p k t (in_array vs ∷ fs) r s =
      rw (next_number-delimiter n c h d, h, step_number) refl
  run-number_end n c h d p k t (in_object ms l b ∷ fs) r s =
      rw (next_number-delimiter n c h d, h, step_number) refl

  pub run-IsNumber :
      {n : Number} {w : Bytes}
      → IsNumber n w
      → (c : ℕ) → delimiter c ≡ true
      → (p : ℕ) (k : Bool) (t : Bytes) (fs : List Frame) (r : Option Value) (s : Bytes)
      → run (at (in_number n) p k t fs r) (w ++ c ∷ s)
        ≡ run
            (finished (number (reversed (reverse_onto w t))) (behind w p) k (reverse_onto w t) fs r)
            (c ∷ s)
  unfolding run
  run-IsNumber (number_ended {n} h) c d p k t fs r s = run-number_end n c h d p k t fs r s
  run-IsNumber (more b e w) c d p k t fs r s =
      rw (e, step_number) (run-IsNumber w c d (p + 1) k (b ∷ t) fs r s)

  run-last :
      (c : ℕ) (v : Value) (p : ℕ) (k : Bool) (t : Bytes) (fs : List Frame) (r : Option Value)
      (s : Bytes)
      → run (at (in_literal (c ∷ []) v) p k t fs r) (c ∷ s) ≡ run (finished v (p + 1) k t fs r) s
  unfolding run complete
  run-last c v p k t [] r s = rw ((==_iff c c).1 refl) refl
  run-last c v p k t (in_array vs ∷ fs) r s = rw ((==_iff c c).1 refl) refl
  run-last c v p k t (in_object ms l b ∷ fs) r s = rw ((==_iff c c).1 refl) refl

  pub entered-literal :
      (l : Literal) (m : Mode) (p : ℕ) (k : Bool) (t : Bytes) (fs : List Frame) (r : Option Value)
      (s : Bytes)
      → entered (at m p k t fs r) (write_literal l ++ s)
        ≡ run (finished (literal_value l) (behind (write_literal l) p) k t fs r) s
  unfolding run begin_value
  entered-literal null_literal m p k t fs r s =
      run-last b'l' (literal_value null_literal) (p + 1 + 1 + 1) k t fs r s
  entered-literal true_literal m p k t fs r s =
      run-last b'e' (literal_value true_literal) (p + 1 + 1 + 1) k t fs r s
  entered-literal false_literal m p k t fs r s =
      run-last b'e' (literal_value false_literal) (p + 1 + 1 + 1 + 1) k t fs r s

  pub entered-Leads :
      {c : ℕ} {n : Number}
      → Leads c n
      → (m : Mode) (p : ℕ) (k : Bool) (t : Bytes) (fs : List Frame) (r : Option Value) (s : Bytes)
      → entered (at m p k t fs r) (c ∷ s) ≡ run (at (in_number n) (p + 1) k (c ∷ []) fs r) s
  unfolding begin_value
  entered-Leads sign m p k t fs r s = refl
  entered-Leads zero_digit m p k t fs r s = refl
  entered-Leads (digit c h) m p k t fs r s =
      rw
        (
          other_byte c b'{' h refl,
          other_byte c b'[' h refl,
          other_byte c b'"' h refl,
          other_byte c b'-' h refl,
          other_byte c b'0' h refl,
          h,
        )
        refl
