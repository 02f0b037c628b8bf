-- ===== src/Base/Split.antt =====
-- A text split at a byte, and put together again.
use Prim.Native.Nat.{ℕ}
use mathlib.Core.Path.{◌≡◌, refl}
use mathlib.Core.Logic.{inl, inr}
use mathlib.Core.Bool.{false}
use mathlib.Core.List.{List, [], ◌∷◌, ◌++◌}
use codesteward_audit_proxy.Base.Tests.{◌==◌, ==_iff, Bool-cases}
use codesteward_audit_proxy.Base.Lists.{All}
use codesteward_audit_proxy.Base.Bytes.{Bytes, split}

-- The byte does not occur.
abbrev pub Lacks : ℕ → Bytes → Type 0
Lacks c w = All (λ d. (d == c) ≡ false) w

module _ (c : ℕ) where
  split-cons : (s : Bytes) → (w : Bytes) × (ws : List Bytes) × (split c s ≡ w ∷ ws)
  unfolding split
  split-cons [] = ([], [], refl)
  split-cons (d ∷ s) =
      let (w, ws, e) = split-cons s in
      elim (Bool-cases (d == c)) [
        | inl same ↦ ([], w ∷ ws, rw (e, same))
        | inr other ↦ (d ∷ w, ws, rw (e, other))
      ]

  pub split-separator : (s : Bytes) → split c (c ∷ s) ≡ [] ∷ split c s
  unfolding split
  split-separator s = let (w, ws, e) = split-cons s in rw (e, (==_iff c c).1 refl)

  pub split-line : (w s : Bytes) → Lacks c w → split c (w ++ c ∷ s) ≡ w ∷ split c s
  unfolding split
  split-line [] s clean = split-separator s
  split-line (d ∷ w) s clean = rw (split-line w s clean.1) (rw (clean.0))

  pub split-last : (w : Bytes) → Lacks c w → split c w ≡ w ∷ []
  unfolding split
  split-last [] clean = refl
  split-last (d ∷ w) clean = rw (split-last w clean.1) (rw (clean.0))

  pub split-Lacks : (s : Bytes) → All (Lacks c) (split c s)
  unfolding split
  split-Lacks [] = (tt, tt)
  split-Lacks (d ∷ s) =
      let (w, ws, e) = split-cons s in
      let all : All (Lacks c) (w ∷ ws) = rw e at (split-Lacks s) in
      elim (Bool-cases (d == c)) [
        | inl same ↦ rw (e, same) (tt, all)
        | inr other ↦ rw (e, other) ((other, all.0), all.1)
      ]
