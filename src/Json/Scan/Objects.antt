-- ===== src/Json/Scan/Objects.antt =====
-- The scanner goes over objects.
use codesteward_audit_proxy.Base.{
  ℕ, ◌+◌, ◌≤◌, Bool, true, Option, List, [], ◌∷◌, ◌++◌, ◌≡◌, refl, sym, ap, ◌∙◌, arith,
  reverse_onto, reversed, append_assoc, length, drop,
}
use codesteward_audit_proxy.Base.Bytes.{Bytes, codes}
use codesteward_audit_proxy.Json.Text.{unquote}
use codesteward_audit_proxy.Json.Value.{Value, object}
use codesteward_audit_proxy.Json.Scan.{
  Frame, in_object, after, key, key_or_end, value, complete, run, members_of, max_depth,
}
use codesteward_audit_proxy.Json.Scan.Slices.{
  behind, behind-append, drop-next, drop-behind, take-drop,
}
use codesteward_audit_proxy.Json.Scan.Grammar.{
  IsText, Document, structure, Fields, no_fields, field, write_key, write, write_fields, meaning,
  member_meanings, depth, depth_fields,
}
use codesteward_audit_proxy.Json.Scan.Tokens.{at, entered}
use codesteward_audit_proxy.Json.Scan.Brackets.{
  Delimited, write-Starts, run-member, run-close_object, run-no_members, run-comma_object,
  run-first_key, run-write_key, entered-object,
}
use codesteward_audit_proxy.Json.Scan.Reach.{
  tail, Reaches, via, and_then, forwards, append_assoc_twice, fits, larger-left, larger-right,
  ended, moved_on, restated, IsScanned, HaveScanned,
}

module _ (body : Bytes) where
  -- One member, from its key on.
  run-field :
      (w : Bytes) (h : IsText w) (d : Document)
      → IsScanned body d
      → (p : ℕ) (k : Bool) (t : Bytes) (ms : List (Bytes × Bytes × Value)) (l : Bytes) (b : ℕ)
        (fs : List Frame) (r : Option Value) (rest : Bytes)
      → length (in_object ms l b ∷ fs) + depth d ≤ max_depth
      → Delimited rest
      → drop p body ≡ write_key w ++ (write d ++ rest)
      → Reaches
          (run
            (at body key p k t (in_object ms l b ∷ fs) r)
            (write_key w ++ (write d ++ (rest ++ tail))))
          (λ k' t'.
            run
              (at body after
                (behind (write d) (behind (write_key w) p))
                k'
                t'
                (in_object
                    ((unquote w, write d, meaning d) ∷ ms)
                    (unquote w)
                    (behind (write_key w) p)
                  ∷ fs)
                r)
              (rest ++ tail))
  unfolding complete
  run-field w h d scanned p k t ms l b fs r rest deep ends e =
      let p' = behind (write_key w) p in
      let value_at : drop p' body ≡ write d ++ rest =
        drop-behind (write_key w) p body (write d ++ rest) e in
      via
        (run-write_key body h p k t ms l b fs r (write d ++ (rest ++ tail))
          ∙ run-member body (write-Starts d) p' true (reversed w) ms (unquote w) b fs r
              (rest ++ tail))
        (and_then
          (scanned value p' true (reversed w) (in_object ms (unquote w) p' ∷ fs) r rest deep ends
            value_at)
          (λ k' t'. (
            k',
            t',
            ap
                (λ raw.
                  run
                    (at body after (behind (write d) p') k' t'
                      (in_object ((unquote w, raw, meaning d) ∷ ms) (unquote w) p' ∷ fs) r)
                    (rest ++ tail))
                (take-drop (write d) p' body rest value_at),
          )))

  first_key :
      (w : Bytes) (h : IsText w) (d : Document) (us : Fields)
      → (p : ℕ) (k : Bool) (t : Bytes) (fs : List Frame) (r : Option Value) (s : Bytes)
      → run
          (at body key_or_end p k t (in_object [] [] 0 ∷ fs) r)
          (write_fields (field w h d us) ++ s)
        ≡ run (at body key p k t (in_object [] [] 0 ∷ fs) r) (write_fields (field w h d us) ++ s)
  unfolding write
  first_key w h d no_fields p k t fs r s =
      run-first_key body p k t [] [] 0 fs r ((w ++ codes "\":" ++ write d) ++ s)
  first_key w h d (field v g a us) p k t fs r s =
      run-first_key body p k t [] [] 0 fs r
        ((w ++ codes "\":" ++ (write d ++ b',' ∷ write_fields (field v g a us))) ++ s)

  -- The members from one on, up to the closing brace.
  run-members :
      (w : Bytes) (h : IsText w) (d : Document) (us : Fields)
      → IsScanned body d
      → HaveScanned body us
      → (p : ℕ) (k : Bool) (t : Bytes) (ms : List (Bytes × Bytes × Value)) (l : Bytes) (b : ℕ)
        (fs : List Frame) (r : Option Value) (rest : Bytes)
      → length (in_object ms l b ∷ fs) + depth_fields (field w h d us) ≤ max_depth
      → drop p body ≡ write_fields (field w h d us) ++ b'}' ∷ rest
      → Reaches
          (run
            (at body key p k t (in_object ms l b ∷ fs) r)
            (write_fields (field w h d us) ++ b'}' ∷ (rest ++ tail)))
          (ended body
            (object (members_of (reversed (reverse_onto (member_meanings (field w h d us)) ms))))
            fs
            r
            rest
            (behind (write_fields (field w h d us)) p + 1))
  unfolding write meaning depth complete
  run-members w h d no_fields scanned all p k t ms l b fs r rest deep e =
      let v = object (members_of (reversed ((unquote w, write d, meaning d) ∷ ms))) in
      let p' = behind (write_key w) p in
      via
        (ap (run (at body key p k t (in_object ms l b ∷ fs) r))
          (append_assoc (write_key w) (write d) (b'}' ∷ (rest ++ tail))))
        (moved_on body v fs r rest (ap (λ n. n + 1) (sym (behind-append (write_key w) (write d) p)))
          (and_then
            (run-field w h d scanned p k t ms l b fs r (b'}' ∷ rest)
              (larger-left (length (in_object ms l b ∷ fs)) (depth d) 0 deep) refl
              (e ∙ append_assoc (write_key w) (write d) (b'}' ∷ rest)))
            (λ k' t'. (
              k',
              t',
              run-close_object body (behind (write d) p') k' t'
                  ((unquote w, write d, meaning d) ∷ ms) (unquote w) p' fs r (rest ++ tail),
            ))))
  run-members w h d (field v g a us) scanned all p k t ms l b fs r rest deep e =
      let others = write_fields (field v g a us) in
      let ms' = (unquote w, write d, meaning d) ∷ ms in
      let p' = behind (write_key w) p in
      let q = behind (write d) p' in
      let before : drop p body ≡ write_key w ++ (write d ++ b',' ∷ (others ++ b'}' ∷ rest)) =
        e ∙ append_assoc_twice (write_key w) (write d) (b',' ∷ others) (b'}' ∷ rest) in
      via
        (ap (run (at body key p k t (in_object ms l b ∷ fs) r)) (
          append_assoc_twice (write_key w) (write d) (b',' ∷ others) (b'}' ∷ (rest ++ tail))
          ∙ ap (λ x. write_key w ++ (write d ++ b',' ∷ x))
              (sym (append_assoc others (b'}' ∷ rest) tail))))
        (moved_on body
          (object (members_of (reversed (reverse_onto (member_meanings (field v g a us)) ms')))) fs
          r rest
          (ap (λ n. n + 1)
            (sym (
              behind-append (write_key w) (write d ++ b',' ∷ others) p
              ∙ behind-append (write d) (b',' ∷ others) p')))
          (and_then
            (run-field w h d scanned p k t ms l b fs r (b',' ∷ (others ++ b'}' ∷ rest))
              (larger-left (length (in_object ms l b ∷ fs)) (depth d)
                (depth_fields (field v g a us)) deep)
              refl before)
            (λ k' t'.
              via
                (run-comma_object body q k' t' ms' (unquote w) p' fs r
                    ((others ++ b'}' ∷ rest) ++ tail)
                  ∙ ap (run (at body key (q + 1) k' t' (in_object ms' (unquote w) p' ∷ fs) r))
                      (append_assoc others (b'}' ∷ rest) tail))
                (run-members v g a us all.0 all.1 (q + 1) k' t' ms' (unquote w) p' fs r rest
                  (larger-right (length (in_object ms l b ∷ fs)) (depth d)
                    (depth_fields (field v g a us)) deep)
                  (drop-next q b',' body (others ++ b'}' ∷ rest) (
                    drop-behind (write d) p' body (b',' ∷ (others ++ b'}' ∷ rest)) (
                      drop-behind (write_key w) p body (write d ++ b',' ∷ (others ++ b'}' ∷ rest))
                        before)))))))

  pub structure-IsScanned : (us : Fields) → HaveScanned body us → IsScanned body (structure us)
  unfolding write meaning depth
  structure-IsScanned no_fields all m p k t fs r rest deep d e = (
    k,
    t,
    entered-object body m p k t fs r (b'}' ∷ (rest ++ tail)) (fits fs 0 deep)
        ∙ run-no_members body (p + 1) k t fs r (rest ++ tail)
        ∙ run-close_object body (p + 1) k t [] [] 0 fs r (rest ++ tail),
  )
  structure-IsScanned (field w h a us) all m p k t fs r rest deep d e =
      let members = write_fields (field w h a us) in
      via
        (ap (entered (at body m p k t fs r))
            (ap (λ v. b'{' ∷ v) (append_assoc members (codes "}") (rest ++ tail)))
          ∙ entered-object body m p k t fs r (members ++ b'}' ∷ (rest ++ tail))
              (fits fs (depth_fields (field w h a us)) deep)
          ∙ first_key w h a us (p + 1) k t fs r (b'}' ∷ (rest ++ tail)))
        (moved_on body (meaning (structure (field w h a us))) fs r rest
          (sym (behind-append members (codes "}") (p + 1)))
          (restated body fs r rest (behind members (p + 1) + 1)
            (ap (λ x. object (members_of x)) (forwards (member_meanings (field w h a us))))
            (run-members w h a us all.0 all.1 (p + 1) k t [] [] 0 fs r rest (omega (arith, deep)) (
              drop-next p b'{' body ((members ++ codes "}") ++ rest) e
              ∙ append_assoc members (codes "}") rest))))
