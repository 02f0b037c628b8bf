-- ===== src/Proxy/ServeMux/Laws.antt =====
-- A cleaned path is clean: cleaning it again changes nothing.
use codesteward_audit_proxy.Base.{
  ◌≡◌, refl, sym, ap, ◌∙◌, ◌≢◌, ◌⊎◌, subst, inl, inr, Bool, true, false, List, [], ◌∷◌, ◌++◌,
  is_nil, reverse_onto, reversed, reverse_onto-reverse_onto, All, append-nil, append_assoc,
  Bool-cases,
}
use codesteward_audit_proxy.Base.Bytes.{Bytes, codes, eq_bytes, eq_bytes_sound, eq_bytes_iff, split}
use codesteward_audit_proxy.Base.Split.{Lacks, split-separator, split-line, split-last, split-Lacks}
use codesteward_audit_proxy.Proxy.ServeMux.{
  pop, push, push_all, rooted, rooted_or_root, clean, ends_in_slash, with_slash, from_root,
  clean_path, Route, to_health, to_handler, moved, is_health, find_handler,
}

-- An element of a clean path.
pub record IsElement (s : Bytes) : Type 0 where
  pub not_empty : is_nil s ≡ false
  pub not_dot : eq_bytes s (codes ".") ≡ false
  pub not_parent : eq_bytes s (codes "..") ≡ false
  pub no_slash : Lacks b'/' s

-- The clean paths: the root, and elements each behind a slash, with or without a slash at the end.
pub data IsClean : Bytes → Type 0 where
  root : IsClean (codes "/")
  file : (s : Bytes) (ss : List Bytes) → All IsElement (s ∷ ss) → IsClean (rooted (s ∷ ss))
  folder :
      (s : Bytes) (ss : List Bytes)
      → All IsElement (s ∷ ss)
      → IsClean (rooted (s ∷ ss) ++ b'/' ∷ [])

pop-All : (before : List Bytes) → All IsElement before → All IsElement (pop before)
pop-All [] all = tt
pop-All (t ∷ before) all = all.1

push-All :
    (before : List Bytes) (s : Bytes)
    → Lacks b'/' s
    → All IsElement before
    → All IsElement (push before s)
unfolding push
push-All before s lacks all = elim (Bool-cases (is_nil s)) [
  | inl empty ↦ rw empty all
  | inr full ↦ elim (Bool-cases (eq_bytes s (codes "."))) [
    | inl dot ↦ simp (full, dot) all
    | inr no_dot ↦ elim (Bool-cases (eq_bytes s (codes ".."))) [
      | inl parent ↦ simp (full, no_dot, parent) (pop-All before all)
      | inr no_parent ↦
          simp (full, no_dot, no_parent)
            (
              record {
                not_empty = full;
                not_dot = no_dot;
                not_parent = no_parent;
                no_slash = lacks;
              },
              all,
            )
    ]
  ]
]

push_all-All :
    (before ss : List Bytes)
    → All (Lacks b'/') ss
    → All IsElement before
    → All IsElement (push_all before ss)
unfolding push_all
push_all-All before [] lacks all = all
push_all-All before (s ∷ ss) lacks all =
    push_all-All (push before s) ss lacks.1 (push-All before s lacks.0 all)

-- An element is kept.
push-element : (before : List Bytes) (s : Bytes) → IsElement s → push before s ≡ s ∷ before
unfolding push
push-element before s e = simp (e.not_empty, e.not_dot, e.not_parent)

push_all-elements :
    (before ss ws : List Bytes)
    → All IsElement ss
    → push_all before (ss ++ ws) ≡ push_all (reverse_onto ss before) ws
unfolding push_all
push_all-elements before [] ws all = refl
push_all-elements before (s ∷ ss) ws all =
    ap (λ b. push_all b (ss ++ ws)) (push-element before s all.0)
    ∙ push_all-elements (s ∷ before) ss ws all.1

reverse_onto-All {ℓ} :
    {A : Type ℓ} (P : A → Type 0) (xs ys : List A)
    → All P xs
    → All P ys
    → All P (reverse_onto xs ys)
reverse_onto-All P [] ys hx hy = hy
reverse_onto-All P (x ∷ xs) ys hx hy = reverse_onto-All P xs (x ∷ ys) hx.1 (hx.0, hy)

-- Elements with slashes between them, split at the slashes; `rest` is what stands at the end.
split-elements :
    (rest : Bytes) (ws : List Bytes)
    → ((w : Bytes) → Lacks b'/' w → split b'/' (w ++ rest) ≡ w ∷ ws)
    → (s : Bytes) (ss : List Bytes) → All IsElement (s ∷ ss)
    → split b'/' (s ++ (rooted ss ++ rest)) ≡ s ∷ (ss ++ ws)
split-elements rest ws base s [] all = base s (all.0.no_slash)
split-elements rest ws base s (t ∷ ss) all =
    ap (λ r. split b'/' (s ++ b'/' ∷ r)) (append_assoc t (rooted ss) rest)
    ∙ split-line b'/' s (t ++ (rooted ss ++ rest)) (all.0.no_slash)
    ∙ ap (λ r. s ∷ r) (split-elements rest ws base t ss all.1)

clean-elements :
    (rest : Bytes) (ws : List Bytes)
    → ((w : Bytes) → Lacks b'/' w → split b'/' (w ++ rest) ≡ w ∷ ws)
    → ((before : List Bytes) → push_all before ws ≡ before)
    → (s : Bytes) (ss : List Bytes) → All IsElement (s ∷ ss)
    → clean (rooted (s ∷ ss) ++ rest) ≡ rooted (s ∷ ss)
unfolding clean push_all push
clean-elements rest ws base none_left s ss all =
    ap (λ p. rooted_or_root (reversed (push_all [] (split b'/' (b'/' ∷ p)))))
      (append_assoc s (rooted ss) rest)
    ∙ ap (λ v. rooted_or_root (reversed (push_all [] v)))
        (split-separator b'/' (s ++ (rooted ss ++ rest))
          ∙ ap (λ v. [] ∷ v) (split-elements rest ws base s ss all))
    ∙ ap (λ v. rooted_or_root (reversed v))
        (push_all-elements [] (s ∷ ss) ws all ∙ none_left (reverse_onto (s ∷ ss) []))
    ∙ ap rooted_or_root (reverse_onto-reverse_onto (s ∷ ss) [] [] ∙ append-nil (s ∷ ss))

ends-append : (w v : Bytes) → is_nil v ≡ false → ends_in_slash (w ++ v) ≡ ends_in_slash v
ends-append [] v n = refl
ends-append (c ∷ []) [] n = cc
ends-append (c ∷ []) (d ∷ v) n = refl
ends-append (c ∷ d ∷ w) v n = ends-append (d ∷ w) v n

ends-Lacks : (w : Bytes) → Lacks b'/' w → ends_in_slash w ≡ false
ends-Lacks [] lacks = refl
ends-Lacks (c ∷ []) lacks = lacks.0
ends-Lacks (c ∷ d ∷ w) lacks = ends-Lacks (d ∷ w) lacks.1

ends-rooted :
    (s : Bytes) (ss : List Bytes) → All IsElement (s ∷ ss) → ends_in_slash (rooted (s ∷ ss)) ≡ false
ends-rooted [] ss all = let bad = all.0.not_empty in cc
ends-rooted (c ∷ s) [] all =
    ap (λ v. ends_in_slash (b'/' ∷ v)) (append-nil (c ∷ s)) ∙ ends-Lacks (c ∷ s) (all.0.no_slash)
ends-rooted (c ∷ s) (t ∷ ss) all =
    ends-append (b'/' ∷ c ∷ s) (rooted (t ∷ ss)) refl ∙ ends-rooted t ss all.1

-- A path of elements is not the root.
rooted-other :
    (s : Bytes) (ss : List Bytes) (rest : Bytes)
    → IsElement s
    → eq_bytes (rooted (s ∷ ss) ++ rest) (codes "/") ≡ false
unfolding eq_bytes
rooted-other [] ss rest e = let bad = e.not_empty in cc
rooted-other (c ∷ s) ss rest e = refl

clean_path-file :
    (s : Bytes) (ss : List Bytes)
    → All IsElement (s ∷ ss)
    → clean_path (rooted (s ∷ ss)) ≡ rooted (s ∷ ss)
unfolding clean_path push_all
clean_path-file s ss all =
    ap (λ b. with_slash b (clean (rooted (s ∷ ss)))) (ends-rooted s ss all)
    ∙ ap clean (sym (append-nil (rooted (s ∷ ss))))
    ∙ clean-elements [] [] (λ w lacks. ap (split b'/') (append-nil w) ∙ split-last b'/' w lacks)
        (λ before. refl) s ss all

folder_slash :
    (s : Bytes) (ss : List Bytes)
    → IsElement s
    → with_slash true (rooted (s ∷ ss)) ≡ rooted (s ∷ ss) ++ b'/' ∷ []
folder_slash s ss e =
    rw (
      ap (λ p. eq_bytes p (codes "/")) (sym (append-nil (rooted (s ∷ ss))))
      ∙ rooted-other s ss [] e)

clean_path-folder :
    (s : Bytes) (ss : List Bytes)
    → All IsElement (s ∷ ss)
    → clean_path (rooted (s ∷ ss) ++ b'/' ∷ []) ≡ rooted (s ∷ ss) ++ b'/' ∷ []
unfolding clean_path push_all push split
clean_path-folder s ss all =
    ap (λ b. with_slash b (clean (rooted (s ∷ ss) ++ b'/' ∷ [])))
      (ends-append (rooted (s ∷ ss)) (b'/' ∷ []) refl)
    ∙ ap (with_slash true) (
        clean-elements (b'/' ∷ []) ([] ∷ []) (λ w lacks. split-line b'/' w [] lacks)
          (λ before. refl) s ss all)
    ∙ folder_slash s ss (all.0)

pub IsClean-clean_path : {p : Bytes} → IsClean p → clean_path p ≡ p
unfolding clean_path
IsClean-clean_path root = refl
IsClean-clean_path (file s ss all) = clean_path-file s ss all
IsClean-clean_path (folder s ss all) = clean_path-folder s ss all

with_slash-IsClean :
    (trailing : Bool) (ss : List Bytes)
    → All IsElement ss
    → IsClean (with_slash trailing (rooted_or_root ss))
unfolding eq_bytes
with_slash-IsClean false [] all = root
with_slash-IsClean true [] all = root
with_slash-IsClean false (s ∷ ss) all = file s ss all
with_slash-IsClean true (s ∷ ss) all = rw (folder_slash s ss (all.0)) (folder s ss all)

clean_path-IsClean : (p : Bytes) → IsClean (clean_path p)
unfolding clean_path clean
clean_path-IsClean p =
    with_slash-IsClean (ends_in_slash (from_root p))
      (reversed (push_all [] (split b'/' (from_root p))))
      (reverse_onto-All IsElement (push_all [] (split b'/' (from_root p))) []
        (push_all-All [] (split b'/' (from_root p)) (split-Lacks b'/' (from_root p)) tt) tt)

-- Cleaning a path twice is cleaning it once.
pub clean_path-clean_path : (p : Bytes) → clean_path (clean_path p) ≡ clean_path p
clean_path-clean_path p = IsClean-clean_path (clean_path-IsClean p)

-- What a route says of the request.
pub data RouteOutcome (method path : Bytes) : Route → Type 0 where
  health :
      path ≡ codes "/healthz"
      → (method ≡ codes "GET") ⊎ (method ≡ codes "HEAD")
      → RouteOutcome method path to_health
  handled : IsClean path → is_health method path ≡ false → RouteOutcome method path to_handler
  redirect :
      path ≢ clean_path path
      → IsClean (clean_path path)
      → RouteOutcome method path (moved (clean_path path))

is_health_sound :
    (method path : Bytes)
    → is_health method path ≡ true
    → (path ≡ codes "/healthz") × ((method ≡ codes "GET") ⊎ (method ≡ codes "HEAD"))
is_health_sound method path h = elim (Bool-cases (eq_bytes method (codes "GET"))) [
  | inl get ↦ (
    eq_bytes_sound path (codes "/healthz") (rw get at h),
    inl (eq_bytes_sound method (codes "GET") get),
  )
  | inr other ↦ elim (Bool-cases (eq_bytes method (codes "HEAD"))) [
    | inl head ↦ (
      eq_bytes_sound path (codes "/healthz") (rw (other, head) at h),
      inr (eq_bytes_sound method (codes "HEAD") head),
    )
    | inr neither ↦ cc (rw (other, neither) at h)
  ]
]

pub find_handler-RouteOutcome :
    (method path : Bytes) → RouteOutcome method path (find_handler method path)
unfolding find_handler
find_handler-RouteOutcome method path = elim (Bool-cases (eq_bytes path (clean_path path))) [
  | inr unclean ↦ rw unclean (
      redirect (λ e. cc (unclean, (eq_bytes_iff path (clean_path path)).1 e))
        (clean_path-IsClean path))
  | inl same ↦ elim (Bool-cases (is_health method path)) [
    | inl hit ↦ let h = is_health_sound method path hit in rw (same, hit) (health h.0 h.1)
    | inr other ↦
        rw (same, other)
          (handled
            (subst IsClean (sym (eq_bytes_sound path (clean_path path) same))
              (clean_path-IsClean path))
            other)
  ]
]
