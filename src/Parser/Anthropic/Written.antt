-- ===== src/Parser/Anthropic/Written.antt =====
-- A full response of the Anthropic API, as the bytes of a body, and what it says.
pub mod Decoding
pub mod Parsing
use codesteward_audit_proxy.Base.{String, ℕ, ◌≡◌, some, List, [], ◌∷◌, ◌++◌, arith}
use codesteward_audit_proxy.Base.Bytes.{Bytes, codes}
use codesteward_audit_proxy.Base.Int.{ℤ}
use codesteward_audit_proxy.Json.Text.{unquote}
use codesteward_audit_proxy.Json.Quote.{quote, Ascii}
use codesteward_audit_proxy.Json.Scan.{Number}
use codesteward_audit_proxy.Json.Scan.Grammar.{
  IsText, IsNumber, Leads, Document, numeral, text, sequence, structure, Documents, no_documents,
  document, Fields, no_fields, write,
}
use codesteward_audit_proxy.Json.Pieces.{Escaped, Count, escaped_document, count_document}
use codesteward_audit_proxy.Json.Scan.Quoted.{quoted, named}
use codesteward_audit_proxy.Json.Extended.{Extends}
use codesteward_audit_proxy.Json.Decode.{parse_int}
use codesteward_audit_proxy.Parser.Types.{ToolCall, add_text}
use codesteward_audit_proxy.Parser.Anthropic.{AnthropicResult}

-- What a block says: the members of a block that the parser reads.
pub data Said : Type 0 where
  thinking_said text_said : Escaped → Said
  tool_said : Escaped → Document → Said

abbrev typed : (type : Bytes) → Ascii type → Fields → Fields
typed type h fs = named (codes "type") (omega arith) (quoted type h) fs

abbrev pub said_fields : Said → Fields
said_fields (thinking_said t) =
    typed (codes "thinking") (omega arith)
      (named (codes "thinking") (omega arith) (escaped_document t) no_fields)
said_fields (text_said t) =
    typed (codes "text") (omega arith)
      (named (codes "text") (omega arith) (escaped_document t) no_fields)
said_fields (tool_said n input) = typed (codes "tool_use") (omega arith) (
    named (codes "name") (omega arith) (escaped_document n)
      (named (codes "input") (omega arith) input no_fields))

abbrev pub block_tags : List String
block_tags = "type" ∷ "thinking" ∷ "text" ∷ "name" ∷ "input" ∷ []

-- A block: what it says, with other members anywhere, such as an id.
pub record Block : Type 0 where
  pub said : Said
  pub fields : Fields
  pub extends : Extends block_tags (said_fields said) fields

block_documents : List Block → Documents
block_documents [] = no_documents
block_documents (b ∷ bs) = document (structure b.fields) (block_documents bs)

abbrev pub usage_tags : List String
usage_tags =
    "input_tokens" ∷ "output_tokens" ∷ "cache_creation_input_tokens" ∷ "cache_read_input_tokens"
    ∷ []

pub record Counts : Type 0 where
  pub input : Count
  pub output : Count
  pub cache_creation : Count
  pub cache_read : Count

abbrev pub counts_fields : Counts → Fields
counts_fields u = named (codes "input_tokens") (omega arith) (count_document u.input) (
    named (codes "output_tokens") (omega arith) (count_document u.output) (
      named (codes "cache_creation_input_tokens") (omega arith) (count_document u.cache_creation) (
        named (codes "cache_read_input_tokens") (omega arith) (count_document u.cache_read)
          no_fields)))

-- The usage, with other members anywhere, such as a service tier.
pub record WrittenUsage : Type 0 where
  pub counts : Counts
  pub fields : Fields
  pub extends : Extends usage_tags (counts_fields counts) fields

abbrev pub message_tags : List String
message_tags = "model" ∷ "content" ∷ "usage" ∷ []

unfoldable pub message_fields : Escaped → List Block → WrittenUsage → Fields
unfolding block_documents
message_fields model blocks usage = named (codes "model") (omega arith) (escaped_document model) (
    named (codes "content") (omega arith) (sequence (block_documents blocks))
      (named (codes "usage") (omega arith) (structure usage.fields) no_fields))

-- The members of a message: the model, the content and the usage in this order, with other members
-- anywhere, such as an id, a role and a reason to stop.
pub record AnthropicBody : Type 0 where
  pub model : Escaped
  pub blocks : List Block
  pub usage : WrittenUsage
  pub fields : Fields
  pub extends : Extends message_tags (message_fields model blocks usage) fields

-- The body of a message.
unfoldable pub message_document : AnthropicBody → Document
message_document m = structure m.fields

-- What the message says, written down without the parser: the thinking, the texts and the calls, in
-- order, each text as its escapes are resolved, and each input with the bytes that the body has.
thinking_said_by : Said → List Bytes
unfolding unquote
thinking_said_by (thinking_said t) = add_text [] (unquote t.raw)
thinking_said_by _ = []

text_said_by : Said → List Bytes
unfolding unquote
text_said_by (text_said t) = add_text [] (unquote t.raw)
text_said_by _ = []

calls_said_by : Said → List ToolCall
unfolding unquote write
calls_said_by (tool_said n input) = record { name = unquote n.raw; input = write input } ∷ []
calls_said_by _ = []

thinking_of : List Block → List Bytes
unfolding thinking_said_by
thinking_of [] = []
thinking_of (b ∷ bs) = thinking_said_by b.said ++ thinking_of bs

text_of : List Block → List Bytes
unfolding text_said_by
text_of [] = []
text_of (b ∷ bs) = text_said_by b.said ++ text_of bs

calls_of : List Block → List ToolCall
unfolding calls_said_by
calls_of [] = []
calls_of (b ∷ bs) = calls_said_by b.said ++ calls_of bs

-- The result that carries the message.
unfoldable pub message_contents : AnthropicBody → AnthropicResult
unfolding thinking_of text_of calls_of
message_contents m = record {
  thinking = thinking_of m.blocks;
  assistant_text = text_of m.blocks;
  tool_calls = calls_of m.blocks;
  model = unquote m.model.raw;
  usage = record {
    input_tokens = m.usage.counts.input.value;
    output_tokens = m.usage.counts.output.value;
    cache_read_tokens = m.usage.counts.cache_read.value;
    cache_write_tokens = m.usage.counts.cache_creation.value;
  };
}
