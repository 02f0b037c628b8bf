-- ===== src/Parser/Anthropic/Written/Decoding.antt =====
-- json.Unmarshal of a message into the structs.
use codesteward_audit_proxy.Base.{◌≡◌, refl, ◌∙◌, some, List, [], ◌∷◌, map}
use codesteward_audit_proxy.Base.Bytes.{Bytes, codes}
use codesteward_audit_proxy.Base.Int.{ℤ, pos}
use codesteward_audit_proxy.Json.Text.{unquote}
use codesteward_audit_proxy.Json.Quote.{quote}
use codesteward_audit_proxy.Json.Value.{Value, Items, array, string, object, member, no_members}
use codesteward_audit_proxy.Json.Scan.{items_of}
use codesteward_audit_proxy.Json.Scan.Grammar.{structure, sequence, write, meaning, meanings}
use codesteward_audit_proxy.Json.Pieces.{escaped_document, count_document}
use codesteward_audit_proxy.Json.Decode.{
  is_tag, decode_int, fold_members, decode_slice, decode_slice-item,
}
use codesteward_audit_proxy.Parser.Anthropic.{
  AnthropicUsage, AnthropicContent, AnthropicMessage, zero_content, zero_message, zero_usage,
  usage_field, message_field, decode_usage, decode_content, decode_message,
}
use codesteward_audit_proxy.Json.Extended.{NoneOf, decode_struct-Extends}
use codesteward_audit_proxy.Parser.Anthropic.{content_field}
use codesteward_audit_proxy.Parser.Anthropic.Written.{
  Said, thinking_said, text_said, tool_said, said_fields, block_tags, Block, block_documents,
  usage_tags, Counts, counts_fields, WrittenUsage, message_tags, message_fields, AnthropicBody,
  message_document,
}

-- What the structs hold after the parse.
unfoldable pub said_content : Said → AnthropicContent
unfolding unquote write
said_content (thinking_said t) = record zero_content {
  type = codes "thinking";
  thinking = unquote t.raw;
}
said_content (text_said t) = record zero_content { type = codes "text"; text = unquote t.raw }
said_content (tool_said n input) = record zero_content {
  type = codes "tool_use";
  name = unquote n.raw;
  input = write input;
}

unfoldable pub block_content : Block → AnthropicContent
unfolding said_content
block_content b = said_content b.said

-- A key of no field is passed over.
content_field-foreign :
    (key raw : Bytes) (v : Value) (b : AnthropicContent)
    → NoneOf block_tags key
    → content_field key raw v b ≡ some b
unfolding content_field
content_field-foreign key raw v b h = rw (h.0, h.1.0, h.1.1.0, h.1.1.1.0, h.1.1.1.1.0) refl

usage_field-foreign :
    (key raw : Bytes) (v : Value) (u : AnthropicUsage)
    → NoneOf usage_tags key
    → usage_field key raw v u ≡ some u
unfolding usage_field
usage_field-foreign key raw v u h = rw (h.0, h.1.0, h.1.1.0, h.1.1.1.0) refl

message_field-foreign :
    (key raw : Bytes) (v : Value) (m : AnthropicMessage)
    → NoneOf message_tags key
    → message_field key raw v m ≡ some m
unfolding message_field
message_field-foreign key raw v m h = rw (h.0, h.1.0, h.1.1.0) refl

decode_content-said :
    (s : Said)
    → decode_content (meaning (structure (said_fields s))) zero_content ≡ some (said_content s)
unfolding decode_content meaning said_content quote unquote is_tag
decode_content-said (thinking_said t) = refl
decode_content-said (text_said t) = refl
decode_content-said (tool_said n input) = refl

decode_content-block :
    (b : Block)
    → decode_content (meaning (structure b.fields)) zero_content ≡ some (block_content b)
unfolding decode_content block_content
decode_content-block b =
    decode_struct-Extends content_field block_tags content_field-foreign zero_content b.extends
    ∙ decode_content-said b.said

decode_content-blocks :
    (bs : List Block) (before : List AnthropicContent)
    → decode_slice zero_content decode_content
        (array (items_of (meanings (block_documents bs))))
        before
      ≡ some (map block_content bs)
unfolding decode_slice block_documents meaning
decode_content-blocks [] before = refl
decode_content-blocks (b ∷ bs) before =
    decode_slice-item zero_content decode_content (meaning (structure b.fields))
      (items_of (meanings (block_documents bs))) before (decode_content-block b)
      (decode_content-blocks bs before)

unfoldable pub usage_of : Counts → AnthropicUsage
usage_of u = record {
  input_tokens = u.input.value;
  output_tokens = u.output.value;
  cache_creation_input_tokens = u.cache_creation.value;
  cache_read_input_tokens = u.cache_read.value;
}

module _ (a b c d : Value) {i o w r : ℤ} where
  decode_usage-counts :
      (ra rb rc rd : Bytes)
      → decode_int a (pos 0) ≡ some i
      → decode_int b (pos 0) ≡ some o
      → decode_int c (pos 0) ≡ some w
      → decode_int d (pos 0) ≡ some r
      → decode_usage
          (object (
            member (codes "input_tokens") ra a (
              member (codes "output_tokens") rb b (
                member
                  (codes "cache_creation_input_tokens")
                  rc
                  c
                  (member (codes "cache_read_input_tokens") rd d no_members)))))
          zero_usage
        ≡ some (record {
          input_tokens = i;
          output_tokens = o;
          cache_creation_input_tokens = w;
          cache_read_input_tokens = r;
        })
  unfolding decode_usage is_tag
  decode_usage-counts ra rb rc rd hi ho hw hr = rw (hi, ho, hw, hr, fold_members, usage_field) refl

decode_usage-known :
    (u : Counts)
    → decode_usage (meaning (structure (counts_fields u))) zero_usage ≡ some (usage_of u)
unfolding decode_int meaning quote unquote usage_of write
decode_usage-known u =
    decode_usage-counts (meaning (count_document u.input)) (meaning (count_document u.output))
      (meaning (count_document u.cache_creation)) (meaning (count_document u.cache_read))
      (write (count_document u.input)) (write (count_document u.output))
      (write (count_document u.cache_creation)) (write (count_document u.cache_read)) u.input.reads
      u.output.reads u.cache_creation.reads u.cache_read.reads

decode_usage-written :
    (u : WrittenUsage)
    → decode_usage (meaning (structure u.fields)) zero_usage ≡ some (usage_of u.counts)
unfolding decode_usage
decode_usage-written u =
    decode_struct-Extends usage_field usage_tags usage_field-foreign zero_usage u.extends
    ∙ decode_usage-known u.counts

unfoldable pub message_of : AnthropicBody → AnthropicMessage
unfolding block_content usage_of unquote
message_of m = record {
  model = unquote m.model.raw;
  content = map block_content m.blocks;
  usage = usage_of m.usage.counts;
}

module _ (t : Bytes) (vs : Items) (u : Value) {cs : List AnthropicContent}
    {n : AnthropicUsage} where
  decode_message-parts :
      (rt rs ru : Bytes)
      → decode_slice zero_content decode_content (array vs) [] ≡ some cs
      → decode_usage u zero_usage ≡ some n
      → decode_message
          (object (
            member
              (codes "model")
              rt
              (string t)
              (member (codes "content") rs (array vs) (member (codes "usage") ru u no_members))))
          zero_message
        ≡ some (record { model = t; content = cs; usage = n })
  unfolding decode_message is_tag
  decode_message-parts rt rs ru hs hu = rw (hs, hu, fold_members, message_field) refl

decode_message-known :
    (m : AnthropicBody)
    → decode_message (meaning (structure (message_fields m.model m.blocks m.usage))) zero_message
      ≡ some (message_of m)
unfolding meaning message_fields quote unquote message_of write
decode_message-known m =
    decode_message-parts (unquote m.model.raw) (items_of (meanings (block_documents m.blocks)))
      (meaning (structure m.usage.fields)) (write (escaped_document m.model))
      (write (sequence (block_documents m.blocks))) (write (structure m.usage.fields))
      (decode_content-blocks m.blocks []) (decode_usage-written m.usage)

pub decode_message-message :
    (m : AnthropicBody)
    → decode_message (meaning (message_document m)) zero_message ≡ some (message_of m)
unfolding decode_message message_document
decode_message-message m =
    decode_struct-Extends message_field message_tags message_field-foreign zero_message m.extends
    ∙ decode_message-known m
