-- ===== src/Audit/Batcher/Channel.antt =====
-- NewChannelBatcher of internal/audit/batcher.go: a batcher whose flush sends into a channel.
use codesteward_audit_proxy.Base.{
  ℕ, zero, suc, ◌+◌, ◌<◌, ◌≤◌, ◌≡◌, refl, sym, ◌∙◌, inl, inr, true, false, List, [], ◌∷◌, ◌++◌,
  append-nil, append_assoc, arith, ltb, Bool-cases, if◌then◌else◌, length, length-append, take,
}
use codesteward_audit_proxy.Audit.Batcher.{Batcher, running}

module _ {ℓ} {E : Type ℓ} where
  unfoldable pub new_channel_batcher : Batcher E
  new_channel_batcher = record {
    size = 100;
    capacity = 1000;
    ch = [];
    done = false;
    phase = running;
    batch = [];
    handed = [];
    accepted = [];
    dropped = [];
  }

  -- flushFn: the events for which `out`, a channel of this capacity, has room.
  unfoldable pub flush_to_channel : ℕ → List E → List E → List E
  flush_to_channel capacity out [] = out
  flush_to_channel capacity out (e ∷ es) =
      flush_to_channel capacity (if ltb (length out) capacity then out ++ e ∷ [] else out) es

  flush_to_channel-full :
      (capacity : ℕ) (out es : List E)
      → capacity ≤ length out
      → flush_to_channel capacity out es ≡ out
  unfolding flush_to_channel
  flush_to_channel-full capacity out [] full = refl
  flush_to_channel-full capacity out (e ∷ es) full = elim (Bool-cases (ltb (length out) capacity)) [
    | inl free ↦ absurd (ground arith)
    | inr none_left ↦ rw none_left (flush_to_channel-full capacity out es full)
  ]

  append_take : (out es : List E) → out ≡ out ++ take 0 es
  append_take out es = sym (append-nil out)

  -- The channel gets a prefix of the events, as long as its room.
  pub flush_to_channel-take :
      (room capacity : ℕ) (out es : List E)
      → length out + room ≡ capacity
      → flush_to_channel capacity out es ≡ out ++ take room es
  unfolding flush_to_channel
  flush_to_channel-take zero capacity out es q =
      flush_to_channel-full capacity out es (omega arith) ∙ append_take out es
  flush_to_channel-take (suc room) capacity out [] q = sym (append-nil out)
  flush_to_channel-take (suc room) capacity out (e ∷ es) q =
      rw (below (length out) capacity (omega arith)) (
        flush_to_channel-take room capacity (out ++ e ∷ []) es
          (omega (arith, length-append out (e ∷ [])))
        ∙ append_assoc out (e ∷ []) (take room es))
    where
      below : (m n : ℕ) → m < n → ltb m n ≡ true
      below m n h = ground arith
