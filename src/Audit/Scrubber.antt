-- ===== src/Audit/Scrubber.antt =====
-- internal/audit/scrubber.go, and `buildScrubber` of cmd/proxy/main.go. The patterns are arbitrary
-- regular expressions, so package regexp is a parameter: what Compile accepts, and what
-- ReplaceAllString makes of a text.
pub mod Laws
use codesteward_audit_proxy.Base.{
  ◌+◌, Option, none, some, List, [], ◌∷◌, ◌++◌, if◌then◌else◌, is_nil,
}
use codesteward_audit_proxy.Base.Bytes.{Bytes, codes, trim_left, trim_right, split}

pub record Engine : Type 1 where
  pub Regexp : Type 0
  pub compile : Bytes → Option Regexp
  pub replace_all : Regexp → Bytes → Bytes → Bytes

abbrev pub redacted : Bytes
redacted = codes "[REDACTED]"

-- The bytes of ASCII that strings.TrimSpace cuts; U+0085 and U+00A0 and the other spaces outside
-- ASCII are not cut here.
abbrev pub blanks : Bytes
blanks = b' ' ∷ b'\t' ∷ b'\n' ∷ 11 ∷ 12 ∷ b'\r' ∷ []

unfoldable pub trim_space : Bytes → Bytes
unfolding trim_left trim_right
trim_space s = trim_right blanks (trim_left blanks s)

module _ (engine : Engine) where
  open engine use {Regexp, compile, replace_all}

  pub data Scrubber : Type 0 where
    nop_scrubber : Scrubber
    pattern_scrubber : List Regexp → Scrubber

  -- The first pattern that does not compile is the error.
  pub data Built (A : Type 0) : Type 0 where
    built : A → Built A
    invalid_pattern : Bytes → Built A

  -- The loop of `NewPatternScrubber`, over the patterns compiled so far.
  unfoldable pub compile_patterns : List Regexp → List Bytes → Built (List Regexp)
  unfolding trim_space
  compile_patterns compiled [] = built compiled
  compile_patterns compiled (p ∷ ps) =
      let rest = λ (rs : List Regexp). compile_patterns rs ps in
      if is_nil (trim_space p) then rest compiled else elim (compile (trim_space p)) [
        | none ↦ invalid_pattern (trim_space p)
        | some r ↦ rest (compiled ++ r ∷ [])
      ]

  unfoldable pub new_pattern_scrubber : List Bytes → Built Scrubber
  unfolding compile_patterns
  new_pattern_scrubber raw_patterns = elim (compile_patterns [] raw_patterns) [
    | built rs ↦ built (pattern_scrubber rs)
    | invalid_pattern p ↦ invalid_pattern p
  ]

  unfoldable pub apply_patterns : List Regexp → Bytes → Bytes
  apply_patterns [] content = content
  apply_patterns (r ∷ rs) content = apply_patterns rs (replace_all r content redacted)

  unfoldable pub scrub : Scrubber → Bytes → Bytes
  unfolding apply_patterns
  scrub nop_scrubber content = content
  scrub (pattern_scrubber rs) content = apply_patterns rs content

  -- main.go
  unfoldable pub build_scrubber : Bytes → Built Scrubber
  unfolding new_pattern_scrubber split
  build_scrubber [] = built nop_scrubber
  build_scrubber (c ∷ s) = new_pattern_scrubber (split b',' (c ∷ s))
