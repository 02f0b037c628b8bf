-- ===== src/Json/Pieces.antt =====
-- Texts and counts as they stand in a body, for statements about whole bodies.
use codesteward_audit_proxy.Base.{ℕ, some, ◌∷◌, ◌≡◌}
use codesteward_audit_proxy.Base.Bytes.{Bytes}
use codesteward_audit_proxy.Base.Int.{ℤ}
use codesteward_audit_proxy.Json.Scan.{Number}
use codesteward_audit_proxy.Json.Scan.Grammar.{IsText, IsNumber, Leads, Document, numeral, text}
use codesteward_audit_proxy.Json.Decode.{parse_int}

-- A text as it is escaped in the body.
pub record Escaped : Type 0 where
  pub raw : Bytes
  pub is_text : IsText raw

-- A count as its digits stand in the body.
pub record Count : Type 0 where
  pub first : ℕ
  pub state : Number
  pub digits : Bytes
  pub leads : Leads first state
  pub is_number : IsNumber state digits
  pub value : ℤ
  pub reads : parse_int (first ∷ digits) ≡ some value

abbrev pub escaped_document : Escaped → Document
escaped_document e = text e.raw e.is_text

abbrev pub count_document : Count → Document
count_document n = numeral n.first n.digits n.leads n.is_number
