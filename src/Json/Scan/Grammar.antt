-- ===== src/Json/Scan/Grammar.antt =====
-- The grammar of JSON, without space between the tokens: documents, how they are written, and the
-- values that they mean.
use codesteward_audit_proxy.Base.{
  ℕ, ◌+◌, true, false, some, List, [], ◌∷◌, ◌++◌, ltb, ◌==◌, within, if◌then◌else◌, ◌≡◌,
}
use codesteward_audit_proxy.Base.Bytes.{Bytes, codes}
use codesteward_audit_proxy.Json.Text.{unquote}
use codesteward_audit_proxy.Json.Value.{Value, null, bool, number, string, array, object}
use codesteward_audit_proxy.Json.Scan.{
  Number, minus, leading_zero, digits, next_number, may_end, mem_escape, hexadecimal, items_of,
  members_of,
}

-- What may stand between the quotes.
pub data IsText : Bytes → Type 0 where
  text_ended : IsText []
  plain :
      (c : ℕ) {w : Bytes}
      → (c == b'"') ≡ false
      → (c == b'\\') ≡ false
      → ltb c 32 ≡ false
      → IsText w
      → IsText (c ∷ w)
  escape :
      (d : ℕ) {w : Bytes}
      → (d == b'u') ≡ false
      → mem_escape d ≡ true
      → IsText w
      → IsText (b'\\' ∷ d ∷ w)
  code_unit :
      (a b c d : ℕ) {w : Bytes}
      → hexadecimal a ≡ true
      → hexadecimal b ≡ true
      → hexadecimal c ≡ true
      → hexadecimal d ≡ true
      → IsText w
      → IsText (b'\\' ∷ b'u' ∷ a ∷ b ∷ c ∷ d ∷ w)

-- The rest of a number.
pub data IsNumber : Number → Bytes → Type 0 where
  number_ended : {n : Number} → may_end n ≡ true → IsNumber n []
  more :
      {n m : Number} (c : ℕ) {w : Bytes}
      → next_number n c ≡ some m
      → IsNumber m w
      → IsNumber n (c ∷ w)

-- The first byte of a number.
pub data Leads : ℕ → Number → Type 0 where
  sign : Leads b'-' minus
  zero_digit : Leads b'0' leading_zero
  digit : (c : ℕ) → within b'1' b'9' c ≡ true → Leads c digits

pub data Literal : Type 0 where
  null_literal true_literal false_literal : Literal

mutual
  pub data Document : Type 0 where
    literal : Literal → Document
    numeral : (c : ℕ) {n : Number} (w : Bytes) → Leads c n → IsNumber n w → Document
    text : (w : Bytes) → IsText w → Document
    sequence : Documents → Document
    structure : Fields → Document

  pub data Documents : Type 0 where
    no_documents : Documents
    document : Document → Documents → Documents

  pub data Fields : Type 0 where
    no_fields : Fields
    field : (k : Bytes) → IsText k → Document → Fields → Fields

abbrev pub literal_value : Literal → Value
literal_value null_literal = null
literal_value true_literal = bool true
literal_value false_literal = bool false

abbrev pub write_literal : Literal → Bytes
write_literal null_literal = codes "null"
write_literal true_literal = codes "true"
write_literal false_literal = codes "false"

abbrev pub write_key : Bytes → Bytes
write_key k = b'"' ∷ k ++ codes "\":"

unfoldable mutual
  pub write : Document → Bytes
  write (literal l) = write_literal l
  write (numeral c w first rest) = c ∷ w
  write (text w t) = b'"' ∷ w ++ b'"' ∷ []
  write (sequence ds) = b'[' ∷ write_all ds ++ b']' ∷ []
  write (structure fs) = b'{' ∷ write_fields fs ++ b'}' ∷ []

  pub write_all : Documents → Bytes
  write_all no_documents = []
  write_all (document d no_documents) = write d
  write_all (document d (document e ds)) = write d ++ b',' ∷ write_all (document e ds)

  pub write_fields : Fields → Bytes
  write_fields no_fields = []
  write_fields (field k t d no_fields) = write_key k ++ write d
  write_fields (field k t d (field l u e fs)) =
      write_key k ++ (write d ++ b',' ∷ write_fields (field l u e fs))

-- The value of a document, and how deep it is nested.
unfoldable mutual
  unfolding write items_of members_of

  pub meaning : Document → Value
  meaning (literal l) = literal_value l
  meaning (numeral c w first rest) = number (c ∷ w)
  meaning (text w t) = string (unquote w)
  meaning (sequence ds) = array (items_of (meanings ds))
  meaning (structure fs) = object (members_of (member_meanings fs))

  pub meanings : Documents → List Value
  meanings no_documents = []
  meanings (document d ds) = meaning d ∷ meanings ds

  pub member_meanings : Fields → List (Bytes × Bytes × Value)
  member_meanings no_fields = []
  member_meanings (field k t d fs) = (unquote k, write d, meaning d) ∷ member_meanings fs

abbrev pub larger : ℕ → ℕ → ℕ
larger m n = if ltb m n then n else m

unfoldable mutual
  pub depth : Document → ℕ
  depth (literal l) = 0
  depth (numeral c w first rest) = 0
  depth (text w t) = 0
  depth (sequence ds) = depth_all ds + 1
  depth (structure fs) = depth_fields fs + 1

  pub depth_all : Documents → ℕ
  depth_all no_documents = 0
  depth_all (document d ds) = larger (depth d) (depth_all ds)

  pub depth_fields : Fields → ℕ
  depth_fields no_fields = 0
  depth_fields (field k t d fs) = larger (depth d) (depth_fields fs)
