-- ===== src/Proxy/Tap/Laws.antt =====
-- The audit sees exactly the bytes that the caller has read.
use mathlib.Core.Path.{ap₂}
use codesteward_audit_proxy.Base.{
  ◌≡◌, refl, ap, ◌∙◌, inl, inr, Bool, true, false, List, [], ◌∷◌, ◌++◌, append_assoc, Bool-cases,
  concat,
}
use codesteward_audit_proxy.Base.Bytes.{Bytes}
use codesteward_audit_proxy.Proxy.Http.{Header}
use codesteward_audit_proxy.Proxy.Tap.{
  TapReadCloser, tap_body, Use, reads, closes, tee, read, close, use_body,
}

-- What onComplete has been called with.
abbrev pub completions : Bool → Bytes → Bool → List (Bytes × Bool)
completions false bytes is_stream = []
completions true bytes is_stream = (bytes, is_stream) ∷ []

pub record Faithful (body : Bytes) (is_stream : Bool) (t : TapReadCloser) : Type 0 where
  pub same : t.piped ≡ t.forwarded
  pub split : t.forwarded ++ concat t.incoming ≡ body
  pub flag : t.is_stream ≡ is_stream
  pub once : t.completed ≡ completions t.closed t.forwarded is_stream

module _ {body : Bytes} {is_stream : Bool} where
  tee-Faithful :
      (t : TapReadCloser) (ps : List Bytes)
      → t.incoming ≡ ps
      → t.closed ≡ false
      → Faithful body is_stream t
      → Faithful body is_stream (tee t ps)
  unfolding tee
  tee-Faithful t [] e c f = f
  tee-Faithful t (p ∷ ps) e c f = record {
    same = ap (λ b. b ++ p) f.same;
    split = append_assoc t.forwarded p (concat ps) ∙ rw e at f.split;
    flag = f.flag;
    once = f.once ∙ rw c;
  }

  read-Faithful : (t : TapReadCloser) → Faithful body is_stream t → Faithful body is_stream (read t)
  unfolding read
  read-Faithful t f = elim (Bool-cases t.closed) [
    | inl shut ↦ simp shut f
    | inr unshut ↦ simp unshut (tee-Faithful t t.incoming refl unshut f)
  ]

  close-Faithful :
      (t : TapReadCloser) → Faithful body is_stream t → Faithful body is_stream (close t)
  unfolding close
  close-Faithful t f = elim (Bool-cases t.closed) [
    | inl shut ↦ simp shut f
    | inr unshut ↦ simp unshut (record {
      same = f.same;
      split = f.split;
      flag = f.flag;
      once =
          ap (λ c. c ++ (t.piped, t.is_stream) ∷ [])
            (f.once ∙ ap (λ c. completions c t.forwarded is_stream) unshut)
          ∙ ap₂ (λ b s. (b, s) ∷ []) f.same f.flag;
    })
  ]

  use_body-Faithful :
      (us : List Use) (t : TapReadCloser)
      → Faithful body is_stream t
      → Faithful body is_stream (use_body t us)
  unfolding use_body
  use_body-Faithful [] t f = f
  use_body-Faithful (reads ∷ us) t f = use_body-Faithful us (read t) (read-Faithful t f)
  use_body-Faithful (closes ∷ us) t f = use_body-Faithful us (close t) (close-Faithful t f)

-- However the caller reads and closes a tapped body, the bytes it has got and those still to come are
-- the body, in order; the pipe has got the same bytes as the caller; and onComplete has run exactly
-- once if the body was closed, with the bytes that the caller got, and not at all before.
pub tap_body-Faithful :
    (header : Header) (pieces : List Bytes) (us : List Use)
    → Faithful
        (concat pieces)
        (tap_body header pieces).is_stream
        (use_body (tap_body header pieces) us)
unfolding tap_body
tap_body-Faithful header pieces us =
    use_body-Faithful us (tap_body header pieces)
      (record { same = refl; split = refl; flag = refl; once = refl })
