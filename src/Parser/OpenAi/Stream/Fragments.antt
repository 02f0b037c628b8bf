-- ===== src/Parser/OpenAi/Stream/Fragments.antt =====
-- The fragments of tool calls: how deltas are written together, and which calls are emitted.
use codesteward_audit_proxy.Base.{
  ℕ, zero, suc, ◌+◌, ◌≤◌, ◌<◌, ◌≡◌, refl, sym, ap, ◌∙◌, inl, inr, none, some, List, [], ◌∷◌, ◌++◌,
  map, append-nil, append_assoc, arith, Bool-cases, length,
}
use codesteward_audit_proxy.Base.Int.{ℤ, pos, eq_ℤ}
use codesteward_audit_proxy.Parser.OpenAi.{Function, call_of}
use codesteward_audit_proxy.Parser.OpenAi.Stream.{
  ToolCallDelta, Fragments, find_fragment, write_fragment, write_fragments, emit_calls,
}

-- Functions in a row, indexed from `k`.
abbrev pub indexed : ℕ → List Function → Fragments
indexed k [] = []
indexed k (f ∷ fs) = (pos k, f) ∷ indexed (k + 1) fs

-- No index from `k` on is taken.
abbrev pub FreeFrom : ℕ → Fragments → Type 0
FreeFrom k pre = (i : ℕ) → k ≤ i → find_fragment (pos i) pre ≡ none

find_fragment-append :
    (j : ℤ) (pre fs : Fragments)
    → find_fragment j pre ≡ none
    → find_fragment j (pre ++ fs) ≡ find_fragment j fs
unfolding find_fragment
find_fragment-append j [] fs h = refl
find_fragment-append j ((i, f) ∷ pre) fs h = elim (Bool-cases (eq_ℤ j i)) [
  | inl same ↦ cc (rw same at h)
  | inr other ↦ rw other (find_fragment-append j pre fs (rw other at h))
]

FreeFrom-append :
    (k : ℕ) (f : Function) (pre : Fragments)
    → FreeFrom k pre
    → FreeFrom (k + 1) (pre ++ (pos k, f) ∷ [])
unfolding find_fragment
FreeFrom-append k f pre free i h =
    find_fragment-append (pos i) pre ((pos k, f) ∷ []) (free i (omega arith)) ∙ ground arith

-- Fragments indexed in a row from 0 are all emitted, in order.
emit_calls-indexed :
    (fs : List Function) (k : ℕ) (pre : Fragments)
    → FreeFrom k pre
    → emit_calls k (length fs) (pre ++ indexed k fs) ≡ map call_of fs
unfolding emit_calls
emit_calls-indexed [] k pre free = refl
emit_calls-indexed (f ∷ fs) k pre free =
    rw (found, emit_calls)
      (ap (◌∷◌ (call_of f)) (
        ap (emit_calls (k + 1) (length fs))
          (sym (append_assoc pre ((pos k, f) ∷ []) (indexed (k + 1) fs)))
        ∙ emit_calls-indexed fs (k + 1) (pre ++ (pos k, f) ∷ []) (FreeFrom-append k f pre free)))
  where
    found : find_fragment (pos k) (pre ++ indexed k (f ∷ fs)) ≡ some f
    found =
        find_fragment-append (pos k) pre (indexed k (f ∷ fs)) (free k (omega arith)) ∙ ground arith

-- The pieces of one call written together.
abbrev pub whole : Function → List Function → Function
whole f [] = f
whole f (g ∷ gs) =
    whole (record { name = f.name ++ g.name; arguments = f.arguments ++ g.arguments }) gs

abbrev pub piece : ℕ → Function → ToolCallDelta
piece k f = record { index = pos k; function = f }

write_fragment-append :
    (t : ToolCallDelta) (pre fs : Fragments)
    → find_fragment t.index pre ≡ none
    → write_fragment t (pre ++ fs) ≡ pre ++ write_fragment t fs
unfolding write_fragment find_fragment
write_fragment-append t [] fs h = refl
write_fragment-append t ((i, f) ∷ pre) fs h = elim (Bool-cases (eq_ℤ t.index i)) [
  | inl same ↦ cc (rw same at h)
  | inr other ↦ rw other (ap (◌∷◌ (i, f)) (write_fragment-append t pre fs (rw other at h)))
]

-- Further pieces of the call at `k` go to its fragment.
write_fragments-pieces :
    (gs : List Function) (k : ℕ) (f : Function) (pre : Fragments)
    → find_fragment (pos k) pre ≡ none
    → write_fragments (map (piece k) gs) (pre ++ (pos k, f) ∷ []) ≡ pre ++ (pos k, whole f gs) ∷ []
unfolding write_fragments
write_fragments-pieces [] k f pre h = refl
write_fragments-pieces (g ∷ gs) k f pre h =
    ap (write_fragments (map (piece k) gs))
      (write_fragment-append (piece k g) pre ((pos k, f) ∷ []) h ∙ ap (◌++◌ pre) here)
    ∙ write_fragments-pieces gs k _ pre h
  where
    here :
        write_fragment (piece k g) ((pos k, f) ∷ [])
        ≡ (pos k, record { name = f.name ++ g.name; arguments = f.arguments ++ g.arguments }) ∷ []
    here = unfold write_fragment in ground arith

-- A call is its first piece and the others.
abbrev pub Call : Type 0
Call = Function × List Function

abbrev pub whole_call : Call → Function
whole_call (f, gs) = whole f gs

-- The deltas of calls that come one behind the other, indexed from `k`.
abbrev pub call_deltas : ℕ → List Call → List ToolCallDelta
call_deltas k [] = []
call_deltas k ((f, gs) ∷ cs) = piece k f ∷ (map (piece k) gs ++ call_deltas (k + 1) cs)

pub write_fragments-append :
    (ts us : List ToolCallDelta) (fs : Fragments)
    → write_fragments (ts ++ us) fs ≡ write_fragments us (write_fragments ts fs)
unfolding write_fragments
write_fragments-append [] us fs = refl
write_fragments-append (t ∷ ts) us fs = write_fragments-append ts us (write_fragment t fs)

write_fragments-calls :
    (cs : List Call) (k : ℕ) (pre : Fragments)
    → FreeFrom k pre
    → write_fragments (call_deltas k cs) pre ≡ pre ++ indexed k (map whole_call cs)
unfolding write_fragments
write_fragments-calls [] k pre free = sym (append-nil pre)
write_fragments-calls ((f, gs) ∷ cs) k pre free =
    write_fragments-append (map (piece k) gs) (call_deltas (k + 1) cs)
      (write_fragment (piece k f) pre)
    ∙ ap (λ fs. write_fragments (call_deltas (k + 1) cs) (write_fragments (map (piece k) gs) fs))
        first
    ∙ ap (write_fragments (call_deltas (k + 1) cs))
        (write_fragments-pieces gs k f pre (free k (omega arith)))
    ∙ write_fragments-calls cs (k + 1) (pre ++ (pos k, whole f gs) ∷ [])
        (FreeFrom-append k (whole f gs) pre free)
    ∙ append_assoc pre _ _
  where
    first : write_fragment (piece k f) pre ≡ pre ++ (pos k, f) ∷ []
    first =
        unfold write_fragment in
        (ap (write_fragment (piece k f)) (sym (append-nil pre))
          ∙ write_fragment-append (piece k f) pre [] (free k (omega arith)))

length-indexed : (k : ℕ) (fs : List Function) → length (indexed k fs) ≡ length fs
length-indexed k [] = refl
length-indexed k (f ∷ fs) = ap suc (length-indexed (k + 1) fs)

-- Calls whose deltas arrive one behind the other under the indices 0, 1, 2 and so on are all
-- emitted, in order, each with the pieces of its name and of its arguments joined.
pub emit_calls-call_deltas :
    (cs : List Call)
    → (let fs = write_fragments (call_deltas 0 cs) [] in emit_calls 0 (length fs) fs)
      ≡ map call_of (map whole_call cs)
emit_calls-call_deltas cs =
    ap (λ fs. emit_calls 0 (length fs) fs)
      (write_fragments-calls cs 0 [] (λ i h. unfold find_fragment in refl))
    ∙ ap (λ n. emit_calls 0 n (indexed 0 (map whole_call cs)))
        (length-indexed 0 (map whole_call cs))
    ∙ emit_calls-indexed (map whole_call cs) 0 [] (λ i h. unfold find_fragment in refl)

-- No index of the fragments is below `n`.
abbrev pub NoneBelow : ℕ → Fragments → Type 0
NoneBelow n fs = (i : ℕ) → i < n → find_fragment (pos i) fs ≡ none

emit_calls-none :
    (n i : ℕ) (fs : Fragments)
    → ((j : ℕ) → j < i + n → find_fragment (pos j) fs ≡ none)
    → emit_calls i n fs ≡ []
unfolding emit_calls
emit_calls-none zero i fs h = refl
emit_calls-none (suc n) i fs h =
    rw (h i (omega arith), emit_calls) (emit_calls-none n (i + 1) fs (λ j lt. h j (omega arith)))

-- Where the indices of the fragments all lie at or above their number, as for one call under index
-- 1, no call is emitted.
pub emit_calls-lost : (fs : Fragments) → NoneBelow (length fs) fs → emit_calls 0 (length fs) fs ≡ []
emit_calls-lost fs h = emit_calls-none (length fs) 0 fs (λ j lt. h j (omega arith))
