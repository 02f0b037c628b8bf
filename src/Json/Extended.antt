-- ===== src/Json/Extended.antt =====
-- Objects with further members, whose keys belong to no field of the struct that is read.
use codesteward_audit_proxy.Base.{
  ◌≤◌, String, ◌≡◌, refl, inl, inr, false, Option, some, List, All, Option-cases, arith,
}
use codesteward_audit_proxy.Base.Bytes.{Bytes}
use codesteward_audit_proxy.Json.Text.{unquote}
use codesteward_audit_proxy.Json.Value.{Value}
use codesteward_audit_proxy.Json.Scan.{members_of}
use codesteward_audit_proxy.Json.Scan.Grammar.{
  IsText, Document, structure, Fields, no_fields, field, write, meaning, member_meanings,
  depth_fields,
}
use codesteward_audit_proxy.Json.Decode.{is_tag, fold_members, decode_struct}

-- A key that folds to none of the tags.
abbrev pub NoneOf : List String → Bytes → Type 0
NoneOf tags key = All (λ tag. is_tag key tag ≡ false) tags

-- The second object has the members of the first in their order, and anywhere between them members
-- of other keys, with documents of any shape.
pub data Extends (tags : List String) : Fields → Fields → Type 0 where
  done : Extends tags no_fields no_fields
  keep :
      (k : Bytes) (t : IsText k) (d : Document) {fs gs : Fields}
      → Extends tags fs gs
      → Extends tags (field k t d fs) (field k t d gs)
  insert :
      (k : Bytes) (t : IsText k) (d : Document) {fs gs : Fields}
      → NoneOf tags (unquote k)
      → Extends tags fs gs
      → Extends tags fs (field k t d gs)

module _ {ℓ} {A : Type ℓ} (f : Bytes → Bytes → Value → A → Option A) (tags : List String)
    (foreign : (key raw : Bytes) (v : Value) (a : A)
      → NoneOf tags key
      → f key raw v a ≡ some a) where
  fold_members-Extends :
      {fs gs : Fields} (a : A)
      → Extends tags fs gs
      → fold_members f a (members_of (member_meanings gs))
        ≡ fold_members f a (members_of (member_meanings fs))
  unfolding member_meanings fold_members
  fold_members-Extends a done = refl
  fold_members-Extends a (keep k t d e) =
      elim (Option-cases (f (unquote k) (write d) (meaning d) a)) [
        | inl refused ↦ rw (refused, fold_members) refl
        | inr (b, q) ↦ rw (q, fold_members) (fold_members-Extends b e)
      ]
  fold_members-Extends a (insert k t d none_of e) =
      rw (foreign (unquote k) (write d) (meaning d) a none_of, fold_members)
        (fold_members-Extends a e)

  -- A struct holds the same whether or not there are members of other keys.
  pub decode_struct-Extends :
      {fs gs : Fields} (a : A)
      → Extends tags fs gs
      → decode_struct f (meaning (structure gs)) a ≡ decode_struct f (meaning (structure fs)) a
  unfolding decode_struct meaning
  decode_struct-Extends a e = fold_members-Extends a e

pub depth_fields-Extends :
    (tags : List String) {fs gs : Fields} → Extends tags fs gs → depth_fields fs ≤ depth_fields gs
unfolding depth_fields
depth_fields-Extends tags done = omega arith
depth_fields-Extends tags (keep k t d {fs} {gs} e) =
    let below = depth_fields-Extends tags e in ground (arith, below)
depth_fields-Extends tags (insert k t d {fs} {gs} none_of e) =
    let below = depth_fields-Extends tags e in ground (arith, below)
