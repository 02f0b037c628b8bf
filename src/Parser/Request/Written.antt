-- ===== src/Parser/Request/Written.antt =====
-- A request with messages, as the bytes of a body, and the texts of its user messages.
pub mod Parsing
use codesteward_audit_proxy.Base.{String, ◌≡◌, false, List, [], ◌∷◌, ◌++◌, arith, if◌then◌else◌}
use codesteward_audit_proxy.Base.Bytes.{Bytes, codes, eq_bytes}
use codesteward_audit_proxy.Json.Text.{unquote}
use codesteward_audit_proxy.Json.Quote.{quote}
use codesteward_audit_proxy.Json.Scan.Grammar.{
  Document, literal, null_literal, sequence, structure, Documents, no_documents, document, Fields,
  no_fields,
}
use codesteward_audit_proxy.Json.Pieces.{Escaped, escaped_document}
use codesteward_audit_proxy.Json.Extended.{Extends}
use codesteward_audit_proxy.Json.Scan.Quoted.{quoted, named}
use codesteward_audit_proxy.Parser.Types.{add_text}

-- A part of a message: a text, or a part of another type.
pub data Said : Type 0 where
  text_said : Escaped → Said
  other_said : (type : Escaped) → eq_bytes (unquote type.raw) (codes "text") ≡ false → Said

abbrev pub said_fields : Said → Fields
said_fields (text_said t) =
    named (codes "type") (omega arith) (quoted (codes "text") (omega arith))
      (named (codes "text") (omega arith) (escaped_document t) no_fields)
said_fields (other_said t h) = named (codes "type") (omega arith) (escaped_document t) no_fields

abbrev pub part_tags : List String
part_tags = "type" ∷ "text" ∷ []

-- What the part says, with other members anywhere, such as an image or a cache control.
pub record Part : Type 0 where
  pub said : Said
  pub fields : Fields
  pub extends : Extends part_tags (said_fields said) fields

part_documents : List Part → Documents
part_documents [] = no_documents
part_documents (p ∷ ps) = document (structure p.fields) (part_documents ps)

pub data Content : Type 0 where
  null_content : Content
  plain_content : Escaped → Content
  parts : List Part → Content

abbrev pub message_tags : List String
message_tags = "role" ∷ "content" ∷ []

content_document : Content → Document
unfolding part_documents
content_document null_content = literal null_literal
content_document (plain_content t) = escaped_document t
content_document (parts ps) = sequence (part_documents ps)

unfoldable pub message_fields : Escaped → Content → Fields
unfolding content_document
message_fields role content =
    named (codes "role") (omega arith) (escaped_document role)
      (named (codes "content") (omega arith) (content_document content) no_fields)

-- A message: a role and a content in this order, with other members anywhere.
pub record WrittenMessage : Type 0 where
  pub role : Escaped
  pub content : Content
  pub fields : Fields
  pub extends : Extends message_tags (message_fields role content) fields

message_documents : List WrittenMessage → Documents
message_documents [] = no_documents
message_documents (m ∷ ms) = document (structure m.fields) (message_documents ms)

abbrev pub request_tags : List String
request_tags = "messages" ∷ []

unfoldable pub request_fields : List WrittenMessage → Fields
unfolding message_documents
request_fields ms =
    named (codes "messages") (omega arith) (sequence (message_documents ms)) no_fields

-- A request: its messages, with other members anywhere, such as a model, a limit of tokens, a system
-- text and tools.
pub record WrittenRequest : Type 0 where
  pub messages : List WrittenMessage
  pub fields : Fields
  pub extends : Extends request_tags (request_fields messages) fields

-- The body of a request.
unfoldable pub request_document : WrittenRequest → Document
request_document r = structure r.fields

-- What the user says, written down without the parser: texts that are not empty.
said_texts : Said → List Bytes
unfolding unquote
said_texts (text_said t) = add_text [] (unquote t.raw)
said_texts (other_said t h) = []

part_texts : List Part → List Bytes
unfolding said_texts
part_texts [] = []
part_texts (p ∷ ps) = said_texts p.said ++ part_texts ps

content_texts : Content → List Bytes
unfolding part_texts
content_texts null_content = []
content_texts (plain_content t) = add_text [] (unquote t.raw)
content_texts (parts ps) = part_texts ps

unfoldable pub said_by_user : List WrittenMessage → List Bytes
unfolding content_texts eq_bytes
said_by_user [] = []
said_by_user (m ∷ ms) =
    if eq_bytes (unquote m.role.raw) (codes "user")
    then content_texts m.content ++ said_by_user ms
    else said_by_user ms
