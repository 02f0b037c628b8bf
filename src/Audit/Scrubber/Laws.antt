-- ===== src/Audit/Scrubber/Laws.antt =====
-- When a scrubber is built, and what it does.
use codesteward_audit_proxy.Base.{
  ℕ, ◌≡◌, refl, sym, ◌∙◌, subst, inl, inr, true, false, none, some, List, [], ◌∷◌, ◌++◌, append-nil,
  append_assoc, Bool-cases, Option-cases, is_nil,
}
use codesteward_audit_proxy.Base.Bytes.{Bytes, split}
use codesteward_audit_proxy.Audit.Scrubber.{
  Engine, trim_space, Scrubber, nop_scrubber, pattern_scrubber, Built, built, invalid_pattern,
  compile_patterns, new_pattern_scrubber, build_scrubber,
}

module _ (engine : Engine) where
  open engine use {Regexp, compile, replace_all}

  -- The compiled patterns of a list, blank ones left out.
  pub data Compiles : List Bytes → List Regexp → Type 0 where
    done : Compiles [] []
    blank :
        {p : Bytes} {ps : List Bytes} {rs : List Regexp}
        → is_nil (trim_space p) ≡ true
        → Compiles ps rs
        → Compiles (p ∷ ps) rs
    pattern_of :
        {p : Bytes} {ps : List Bytes} {r : Regexp} {rs : List Regexp}
        → is_nil (trim_space p) ≡ false
        → compile (trim_space p) ≡ some r
        → Compiles ps rs
        → Compiles (p ∷ ps) (r ∷ rs)

  -- The patterns before `p` compile, and `p`, trimmed, is the first that does not.
  pub data FailsAt (q : Bytes) : List Bytes → Type 0 where
    at :
        {p : Bytes} {ps : List Bytes}
        → is_nil (trim_space p) ≡ false
        → compile (trim_space p) ≡ none
        → trim_space p ≡ q
        → FailsAt q (p ∷ ps)
    later_blank :
        {p : Bytes} {ps : List Bytes}
        → is_nil (trim_space p) ≡ true
        → FailsAt q ps
        → FailsAt q (p ∷ ps)
    later :
        {p : Bytes} {ps : List Bytes} {r : Regexp}
        → compile (trim_space p) ≡ some r
        → FailsAt q ps
        → FailsAt q (p ∷ ps)

  -- Either every pattern compiles, or some is the first that does not.
  pub Verdict : List Regexp → List Bytes → Built engine (List Regexp) → Type 0
  Verdict compiled ps (built rs) = (new : List Regexp) × Compiles ps new × (rs ≡ compiled ++ new)
  Verdict compiled ps (invalid_pattern q) = FailsAt q ps

  Verdict-blank :
      (compiled : List Regexp) (p : Bytes) (ps : List Bytes) (x : Built engine (List Regexp))
      → is_nil (trim_space p) ≡ true
      → Verdict compiled ps x
      → Verdict compiled (p ∷ ps) x
  unfolding Verdict
  Verdict-blank compiled p ps (built rs) b (new, c, e) = (new, blank b c, e)
  Verdict-blank compiled p ps (invalid_pattern q) b f = later_blank b f

  Verdict-pattern :
      (compiled : List Regexp) (p : Bytes) (ps : List Bytes) (r : Regexp)
      (x : Built engine (List Regexp))
      → is_nil (trim_space p) ≡ false
      → compile (trim_space p) ≡ some r
      → Verdict (compiled ++ r ∷ []) ps x
      → Verdict compiled (p ∷ ps) x
  unfolding Verdict
  Verdict-pattern compiled p ps r (built rs) b k (new, c, e) =
      (r ∷ new, pattern_of b k c, e ∙ append_assoc compiled (r ∷ []) new)
  Verdict-pattern compiled p ps r (invalid_pattern q) b k f = later k f

  compile_patterns-Verdict :
      (ps : List Bytes) (compiled : List Regexp)
      → Verdict compiled ps (compile_patterns engine compiled ps)
  unfolding compile_patterns Verdict
  compile_patterns-Verdict [] compiled = ([], done, sym (append-nil compiled))
  compile_patterns-Verdict (p ∷ ps) compiled = elim (Bool-cases (is_nil (trim_space p))) [
    | inl b ↦ rw b (Verdict-blank compiled p ps _ b (compile_patterns-Verdict ps compiled))
    | inr b ↦ elim (Option-cases (compile (trim_space p))) [
      | inl bad ↦ rw (b, bad, compile_patterns) (at b bad refl)
      | inr (r, k) ↦
          rw (b, k, compile_patterns)
            (Verdict-pattern compiled p ps r _ b k
              (compile_patterns-Verdict ps (compiled ++ r ∷ [])))
    ]
  ]

  -- What building a scrubber from its configuration may come to.
  pub data Outcome : Bytes → Built engine (Scrubber engine) → Type 0 where
    off : Outcome [] (built nop_scrubber)
    on :
        {text : Bytes} {rs : List Regexp}
        → is_nil text ≡ false
        → Compiles (split b',' text) rs
        → Outcome text (built (pattern_scrubber rs))
    bad :
        {text q : Bytes}
        → is_nil text ≡ false
        → FailsAt q (split b',' text)
        → Outcome text (invalid_pattern q)

  new_pattern_scrubber-Outcome :
      (c : ℕ) (text : Bytes)
      → Outcome (c ∷ text) (new_pattern_scrubber engine (split b',' (c ∷ text)))
  unfolding new_pattern_scrubber Verdict
  new_pattern_scrubber-Outcome c text =
      finish (compile_patterns engine [] (split b',' (c ∷ text)))
        (compile_patterns-Verdict (split b',' (c ∷ text)) [])
    where
      finish :
          (x : Built engine (List Regexp))
          → Verdict [] (split b',' (c ∷ text)) x
          → Outcome (c ∷ text) (elim x [
            | built rs ↦ built (pattern_scrubber rs)
            | invalid_pattern p ↦ invalid_pattern p
          ])
      finish (built rs) (new, k, e) = on refl (subst (Compiles _) (sym e) k)
      finish (invalid_pattern q) f = bad refl f

  -- Scrubbing is all or nothing. Without patterns the scrubber that leaves content alone is built.
  -- With patterns the scrubber holds the compiled form of each pattern that is not blank, in order,
  -- and where one does not compile none is built and the error names the first such pattern.
  pub build_scrubber-Outcome : (text : Bytes) → Outcome text (build_scrubber engine text)
  unfolding build_scrubber
  build_scrubber-Outcome [] = off
  build_scrubber-Outcome (c ∷ text) = new_pattern_scrubber-Outcome c text
