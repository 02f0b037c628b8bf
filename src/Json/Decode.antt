-- ===== src/Json/Decode.antt =====
-- json.Unmarshal into the structs of internal/parser. A decoder takes what the target holds so far
-- and gives what it holds afterwards, or `none` where Unmarshal returns an error (the program drops
-- the target then). A slice that a repeated key fills a second time starts from fresh elements.
use codesteward_audit_proxy.Base.{
  ℕ, ◌+◌, ◌-◌, ◌*◌, ◌^◌, String, Bool, true, false, Option, none, some, List, [], ◌∷◌, ltb, leb,
  within, ◌==◌, if◌then◌else◌, get_or_else, ◌>>=◌, ◌≡◌, refl,
}
use codesteward_audit_proxy.Base.Bytes.{Bytes, codes, equal_fold}
use codesteward_audit_proxy.Base.Int.{ℤ, pos, negsuc}
use codesteward_audit_proxy.Json.Value.{
  Value, Items, Members, null, number, string, array, object, no_items, item, no_members, member,
}
use codesteward_audit_proxy.Json.Scan.{scan}

-- A key belongs to a field if it folds to the field's tag.
unfoldable pub is_tag : Bytes → String → Bool
unfolding equal_fold
is_tag key tag = equal_fold key (codes tag)

-- The members of an object, in order, each handed to `field` with its key and its exact bytes.
unfoldable pub fold_members {ℓ} :
    {A : Type ℓ} → (Bytes → Bytes → Value → A → Option A) → A → Members → Option A
fold_members field a no_members = some a
fold_members field a (member key raw v ms) = elim (field key raw v a) [
  | none ↦ none
  | some b ↦ fold_members field b ms
]

-- What holds of every key.
abbrev pub AllMembers {ℓ} : (Bytes → Type ℓ) → Members → Type ℓ
AllMembers P no_members = Unit
AllMembers P (member key raw v ms) = P key × AllMembers P ms

-- A struct: null leaves it, an object fills it, all else is an error.
unfoldable pub decode_struct {ℓ} :
    {A : Type ℓ} → (Bytes → Bytes → Value → A → Option A) → Value → A → Option A
unfolding fold_members
decode_struct field null a = some a
decode_struct field (object ms) a = fold_members field a ms
decode_struct field _ a = none

-- A pointer to a struct: null makes it nil, an object is decoded into what it points to.
unfoldable pub decode_pointer {ℓ} :
    {A : Type ℓ} → A → (Value → A → Option A) → Value → Option A → Option (Option A)
decode_pointer fresh decode null p = some none
decode_pointer fresh decode v p = decode v (get_or_else p fresh) >>= λ a. some (some a)

decode_items {ℓ} : {A : Type ℓ} → A → (Value → A → Option A) → Items → Option (List A)
decode_items fresh decode no_items = some []
decode_items fresh decode (item v vs) = elim (decode v fresh) [
  | none ↦ none
  | some a ↦ decode_items fresh decode vs >>= λ as'. some (a ∷ as')
]

unfoldable pub decode_slice {ℓ} :
    {A : Type ℓ} → A → (Value → A → Option A) → Value → List A → Option (List A)
unfolding decode_items
decode_slice fresh decode null as' = some []
decode_slice fresh decode (array vs) as' = decode_items fresh decode vs
decode_slice fresh decode _ as' = none

pub decode_slice-item {ℓ} :
    {A : Type ℓ} (fresh : A) (decode : Value → A → Option A) (v : Value) (vs : Items)
    (before : List A) {a : A} {as' : List A}
    → decode v fresh ≡ some a
    → decode_slice fresh decode (array vs) before ≡ some as'
    → decode_slice fresh decode (array (item v vs)) before ≡ some (a ∷ as')
unfolding decode_slice
decode_slice-item fresh decode v vs before first others =
    rw (first, others, decode_slice, decode_items) refl

-- Members whose keys belong to no field change nothing.
pub fold_members-kept {ℓ} :
    {A : Type ℓ} (field : Bytes → Bytes → Value → A → Option A) (a : A) (ms : Members)
    → AllMembers (λ key. (raw : Bytes) (v : Value) → field key raw v a ≡ some a) ms
    → fold_members field a ms ≡ some a
unfolding fold_members
fold_members-kept field a no_members h = refl
fold_members-kept field a (member key raw v ms) h =
    rw (h.0 raw v, fold_members) (fold_members-kept field a ms h.1)

unfoldable pub decode_string : Value → Bytes → Option Bytes
decode_string null s = some s
decode_string (string t) s = some t
decode_string _ s = none

digits_value : ℕ → Bytes → Option ℕ
digits_value n [] = some n
digits_value n (c ∷ s) = elim (within b'0' b'9' c) [
  | true ↦ digits_value (n * 10 + (c - b'0')) s
  | false ↦ none
]

-- strconv.ParseInt in base 10 with 64 bits, on a JSON number
unfoldable pub parse_int : Bytes → Option ℤ
unfolding digits_value
parse_int [] = none
parse_int (c ∷ s) =
    if c == b'-'
    then digits_value 0 s >>= (λ n.
      if n == 0 then some (pos 0) else if leb n (2 ^ 63) then some (negsuc (n - 1)) else none)
    else digits_value 0 (c ∷ s) >>= (λ n. if ltb n (2 ^ 63) then some (pos n) else none)

unfoldable pub decode_int : Value → ℤ → Option ℤ
unfolding parse_int
decode_int null i = some i
decode_int (number s) i = parse_int s
decode_int _ i = none

-- json.Unmarshal
unfoldable pub unmarshal {ℓ} : {A : Type ℓ} → (Value → A → Option A) → A → Bytes → Option A
unfolding scan
unmarshal decode fresh body = scan body >>= λ v. decode v fresh
