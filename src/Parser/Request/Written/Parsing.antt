-- ===== src/Parser/Request/Written/Parsing.antt =====
-- The request parser on the bytes of a request.
use codesteward_audit_proxy.Base.{
  ℕ, ◌+◌, ◌≤◌, ◌≡◌, refl, sym, ap, ◌∙◌, inl, inr, true, Option, none, some, List, [], ◌∷◌, ◌++◌,
  map, All, arith, append-nil, append_assoc, get_or_else, Bool-cases,
}
use codesteward_audit_proxy.Base.Bytes.{Bytes, codes, eq_bytes}
use codesteward_audit_proxy.Json.Text.{unquote}
use codesteward_audit_proxy.Json.Quote.{quote}
use codesteward_audit_proxy.Json.Value.{Value, array, object, member, no_members}
use codesteward_audit_proxy.Json.Scan.{space, max_depth, items_of}
use codesteward_audit_proxy.Json.Scan.Grammar.{
  Document, literal, null_literal, structure, sequence, write, meaning, meanings, depth, depth_all,
  depth_fields, larger,
}
use codesteward_audit_proxy.Json.Scan.Brackets.{write-Starts}
use codesteward_audit_proxy.Json.Pieces.{Escaped, escaped_document}
use codesteward_audit_proxy.Json.Unmarshal.{unmarshal-write}
use codesteward_audit_proxy.Json.Decode.{
  is_tag, decode_string, fold_members, decode_struct, decode_slice, decode_slice-item, unmarshal,
}
use codesteward_audit_proxy.Parser.Types.{add_text, add_text-append}
use codesteward_audit_proxy.Parser.Request.{
  RequestMessage, ContentText, zero_message, zero_block, message_field, body_field, decode_body,
  block_field, decode_blocks, block_texts, text_from_content, extract_text_from_content,
  parse_request,
}
use codesteward_audit_proxy.Parser.Request.Laws.{user_texts, parse_request-scrubs}
use codesteward_audit_proxy.Json.Extended.{NoneOf, decode_struct-Extends, depth_fields-Extends}
use codesteward_audit_proxy.Parser.Request.Written.{
  Said, text_said, other_said, said_fields, part_tags, Part, part_documents, Content, null_content,
  plain_content, parts, message_tags, content_document, message_fields, WrittenMessage,
  message_documents, request_tags, request_fields, WrittenRequest, request_document, said_texts,
  part_texts, content_texts, said_by_user,
}

-- What the structs hold after the parse.
said_block : Said → ContentText
unfolding unquote
said_block (text_said t) = record { type = codes "text"; text = unquote t.raw }
said_block (other_said t h) = record { type = unquote t.raw; text = [] }

block_of : Part → ContentText
unfolding said_block
block_of p = said_block p.said

-- A key of no field is passed over.
block_field-foreign :
    (key raw : Bytes) (v : Value) (b : ContentText)
    → NoneOf part_tags key
    → block_field key raw v b ≡ some b
unfolding block_field
block_field-foreign key raw v b h = rw (h.0, h.1.0) refl

message_field-foreign :
    (key raw : Bytes) (v : Value) (m : RequestMessage)
    → NoneOf message_tags key
    → message_field key raw v m ≡ some m
unfolding message_field
message_field-foreign key raw v m h = rw (h.0, h.1.0) refl

body_field-foreign :
    (key raw : Bytes) (v : Value) (ms : List RequestMessage)
    → NoneOf request_tags key
    → body_field key raw v ms ≡ some ms
unfolding body_field
body_field-foreign key raw v ms h = rw h.0 refl

decode-said :
    (s : Said)
    → decode_struct block_field (meaning (structure (said_fields s))) zero_block
      ≡ some (said_block s)
unfolding decode_struct block_field meaning quote unquote is_tag said_block
decode-said (text_said t) = refl
decode-said (other_said t h) = refl

decode-part :
    (p : Part)
    → decode_struct block_field (meaning (structure p.fields)) zero_block ≡ some (block_of p)
unfolding block_of
decode-part p =
    decode_struct-Extends block_field part_tags block_field-foreign zero_block p.extends
    ∙ decode-said p.said

decode-parts :
    (ps : List Part)
    → decode_slice zero_block
        (decode_struct block_field)
        (array (items_of (meanings (part_documents ps))))
        []
      ≡ some (map block_of ps)
unfolding decode_slice part_documents meaning
decode-parts [] = refl
decode-parts (p ∷ ps) =
    decode_slice-item zero_block (decode_struct block_field) (meaning (structure p.fields))
      (items_of (meanings (part_documents ps))) [] (decode-part p) (decode-parts ps)

block_texts-said :
    (s : Said) (out : List Bytes) (bs : List ContentText)
    → block_texts out (said_block s ∷ bs) ≡ block_texts (out ++ said_texts s) bs
unfolding block_texts said_block said_texts
block_texts-said (text_said t) out bs =
    ap (λ o. block_texts o bs) (add_text-append out (unquote t.raw))
block_texts-said (other_said t h) out bs = rw (h, block_texts, append-nil out) refl

block_texts-parts :
    (ps : List Part) (out : List Bytes) → block_texts out (map block_of ps) ≡ out ++ part_texts ps
unfolding block_of part_texts block_texts
block_texts-parts [] out = sym (append-nil out)
block_texts-parts (p ∷ ps) out =
    block_texts-said p.said out (map block_of ps)
    ∙ block_texts-parts ps (out ++ said_texts p.said)
    ∙ append_assoc out (said_texts p.said) (part_texts ps)

-- The bytes of a document alone.
unmarshal-alone {ℓ} :
    {A : Type ℓ} (decode : Value → A → Option A) (fresh : A) (d : Document)
    → depth d ≤ max_depth
    → unmarshal decode fresh (write d) ≡ decode (meaning d) fresh
unmarshal-alone decode fresh d deep =
    ap (unmarshal decode fresh) (sym (append-nil (write d)))
    ∙ unmarshal-write decode fresh d [] deep tt

extract-text_from_content :
    (d : Document) → extract_text_from_content (write d) ≡ text_from_content (write d)
unfolding extract_text_from_content
extract-text_from_content d = let (c, cs, e, plain, no_bracket) = write-Starts d in rw e refl

text_from_content-string :
    (raw t : Bytes)
    → unmarshal decode_string [] raw ≡ some t
    → text_from_content raw ≡ add_text [] t
unfolding text_from_content
text_from_content-string raw t e = rw (e, text_from_content) refl

text_from_content-blocks :
    (raw : Bytes) (bs : List ContentText)
    → unmarshal decode_string [] raw ≡ none
    → unmarshal decode_blocks [] raw ≡ some bs
    → text_from_content raw ≡ block_texts [] bs
unfolding text_from_content
text_from_content-blocks raw bs e h = rw (e, h, text_from_content) refl

extract_text-content :
    (c : Content)
    → depth (content_document c) ≤ max_depth
    → extract_text_from_content (write (content_document c)) ≡ content_texts c
unfolding content_document content_texts meaning decode_string decode_blocks
extract_text-content null_content deep =
    extract-text_from_content (literal null_literal)
    ∙ text_from_content-string (write (literal null_literal)) []
        (unmarshal-alone decode_string [] (literal null_literal) deep)
extract_text-content (plain_content t) deep =
    extract-text_from_content (escaped_document t)
    ∙ text_from_content-string (write (escaped_document t)) (unquote t.raw)
        (unmarshal-alone decode_string [] (escaped_document t) deep)
extract_text-content (parts ps) deep =
    extract-text_from_content (sequence (part_documents ps))
    ∙ text_from_content-blocks (write (sequence (part_documents ps))) (map block_of ps)
        (unmarshal-alone decode_string [] (sequence (part_documents ps)) deep)
        (unmarshal-alone decode_blocks [] (sequence (part_documents ps)) deep ∙ decode-parts ps)
    ∙ block_texts-parts ps []

-- The message, with the bytes of its content.
message_of : WrittenMessage → RequestMessage
unfolding unquote write content_document
message_of m = record { role = unquote m.role.raw; content = write (content_document m.content) }

decode-message :
    (m : WrittenMessage)
    → decode_struct message_field (meaning (structure m.fields)) zero_message ≡ some (message_of m)
decode-message m =
    decode_struct-Extends message_field message_tags message_field-foreign zero_message m.extends
    ∙ known
  where
    known :
        decode_struct message_field
          (meaning (structure (message_fields m.role m.content)))
          zero_message
        ≡ some (message_of m)
    known =
        unfold decode_struct message_field meaning message_fields quote unquote is_tag message_of in
        refl

decode-messages :
    (ms : List WrittenMessage)
    → decode_slice zero_message
        (decode_struct message_field)
        (array (items_of (meanings (message_documents ms))))
        []
      ≡ some (map message_of ms)
unfolding decode_slice message_documents meaning
decode-messages [] = refl
decode-messages (m ∷ ms) =
    decode_slice-item zero_message (decode_struct message_field) (meaning (structure m.fields))
      (items_of (meanings (message_documents ms))) [] (decode-message m) (decode-messages ms)

decode_body-messages :
    (w : Value) (raw : Bytes) {ms : List RequestMessage}
    → decode_slice zero_message (decode_struct message_field) w [] ≡ some ms
    → decode_body (object (member (codes "messages") raw w no_members)) [] ≡ some ms
unfolding decode_body is_tag
decode_body-messages w raw h = rw (h, fold_members, body_field) refl

decode_body-known :
    (ms : List WrittenMessage)
    → decode_body (meaning (structure (request_fields ms))) [] ≡ some (map message_of ms)
unfolding meaning request_fields quote unquote write
decode_body-known ms =
    decode_body-messages (meaning (sequence (message_documents ms)))
      (write (sequence (message_documents ms))) (decode-messages ms)

decode_body-request :
    (r : WrittenRequest)
    → decode_body (meaning (request_document r)) [] ≡ some (map message_of r.messages)
unfolding decode_body request_document
decode_body-request r =
    decode_struct-Extends body_field request_tags body_field-foreign [] r.extends
    ∙ decode_body-known r.messages

-- A content is nested no deeper than the request.
content_depth :
    (content : Content) (role : Escaped)
    → depth_fields (message_fields role content) ≤ max_depth
    → depth (content_document content) ≤ max_depth
unfolding message_fields
content_depth content role h = smaller (depth (content_document content)) (unfold depth in h)
  where
    smaller : (n : ℕ) → larger 0 (larger n 0) ≤ max_depth → n ≤ max_depth
    smaller n h = ground (arith, h)

messages_depth :
    (r : WrittenRequest)
    → depth (request_document r) ≤ max_depth
    → depth_all (message_documents r.messages) ≤ max_depth
unfolding depth request_document request_fields
messages_depth r h =
    let below = depth_fields-Extends request_tags r.extends in
    smaller (depth_all (message_documents r.messages)) (depth_fields r.fields) below h
  where
    smaller : (k d : ℕ) → larger (k + 1) 0 ≤ d → d + 1 ≤ max_depth → k ≤ max_depth
    smaller k d below h = ground (arith, below, h)

first_depth : (d k : ℕ) → larger (d + 1) k ≤ max_depth → (d ≤ max_depth) × (k ≤ max_depth)
first_depth d k h = (ground (arith, h), ground (arith, h))

user_texts-messages :
    (ms : List WrittenMessage)
    → depth_all (message_documents ms) ≤ max_depth
    → user_texts (map message_of ms) ≡ said_by_user ms
unfolding user_texts said_by_user message_of depth message_documents
user_texts-messages [] deep = refl
user_texts-messages (m ∷ ms) deep =
    let (inner, others) =
      first_depth (depth_fields m.fields) (depth_all (message_documents ms)) deep in
    let below = depth_fields-Extends message_tags m.extends in
    let content = content_depth m.content m.role (omega (arith, below, inner)) in
    let rest = user_texts-messages ms others in
    elim (Bool-cases (eq_bytes (unquote m.role.raw) (codes "user"))) [
      | inl user ↦ rw (user, extract_text-content m.content content, rest) refl
      | inr other ↦ rw (other, rest) refl
    ]

-- Of a captured request the body is stored scrubbed, and the user messages are exactly what the user
-- says, each text scrubbed: of the messages whose role is user, in order, a content that is a text, and
-- the texts among the parts of a content, unless they are empty. The request has one member
-- `messages`; each message has a role and then a content, which is null, a text or a list of parts; a
-- part has a type, a text part its text behind, and another part no text. Members of other keys, with documents of any
-- shape, may stand anywhere in the request, in its messages and in their parts. The bytes are those of
-- the JSON grammar without space between the tokens, nested no deeper than encoding/json allows, with
-- space behind.
pub parse_request-write :
    (r : WrittenRequest) (rest : Bytes) (scrub : Bytes → Bytes)
    → depth (request_document r) ≤ max_depth
    → All (λ c. space c ≡ true) rest
    → parse_request (write (request_document r) ++ rest) scrub true ≡ record {
      user_messages = map scrub (said_by_user r.messages);
      raw = scrub (write (request_document r) ++ rest);
      request_captured = true;
    }
unfolding parse_request
parse_request-write r rest scrub deep spaces =
    let body = write (request_document r) ++ rest in
    ap (λ us. record { user_messages = us; raw = scrub body; request_captured = true })
      ((parse_request-scrubs body scrub).1
        ∙ ap (λ o. map scrub (user_texts (get_or_else o [])))
            (unmarshal-write decode_body [] (request_document r) rest deep spaces
              ∙ decode_body-request r)
        ∙ ap (map scrub) (user_texts-messages r.messages (messages_depth r deep)))
