-- ===== src/Parser/Request.antt =====
-- internal/parser/request.go: what is stored of a request. The scrubber is the function that its
-- Scrub method computes.
pub mod Laws
pub mod Written
use codesteward_audit_proxy.Base.{
  ◌≡◌, refl, Bool, true, false, Option, none, some, List, [], ◌∷◌, ◌++◌, map, if◌then◌else◌, ◌>>=◌,
}
use codesteward_audit_proxy.Base.Bytes.{Bytes, codes, eq_bytes}
use codesteward_audit_proxy.Json.Value.{Value}
use codesteward_audit_proxy.Json.Decode.{
  is_tag, decode_struct, decode_slice, decode_string, unmarshal,
}
use codesteward_audit_proxy.Parser.Types.{add_text}

pub record RequestResult : Type 0 where
  pub user_messages : List Bytes
  pub raw : Bytes
  pub request_captured : Bool

-- `Content` is a json.RawMessage: the bytes of the value, empty where the key is missing.
pub record RequestMessage : Type 0 where
  pub role : Bytes
  pub content : Bytes

pub record ContentText : Type 0 where
  pub type : Bytes
  pub text : Bytes

abbrev zero_message : RequestMessage
zero_message = record { role = []; content = [] }

abbrev zero_block : ContentText
zero_block = record { type = []; text = [] }

message_field : Bytes → Bytes → Value → RequestMessage → Option RequestMessage
unfolding is_tag decode_string
message_field key raw v m =
    if is_tag key "role"
    then (decode_string v m.role >>= λ s. some (record m { role = s }))
    else if is_tag key "content"
    then some (record m { content = raw })
    else some m

-- `requestBody` has the one field.
body_field : Bytes → Bytes → Value → List RequestMessage → Option (List RequestMessage)
unfolding is_tag message_field decode_struct decode_slice
body_field key raw v ms =
    if is_tag key "messages"
    then decode_slice zero_message (decode_struct message_field) v ms
    else some ms

unfoldable pub decode_body : Value → List RequestMessage → Option (List RequestMessage)
unfolding body_field decode_struct
decode_body = decode_struct body_field

block_field : Bytes → Bytes → Value → ContentText → Option ContentText
unfolding is_tag decode_string
block_field key raw v b =
    if is_tag key "type"
    then (decode_string v b.type >>= λ s. some (record b { type = s }))
    else if is_tag key "text"
    then (decode_string v b.text >>= λ s. some (record b { text = s }))
    else some b

unfoldable pub decode_blocks : Value → List ContentText → Option (List ContentText)
unfolding decode_slice decode_struct block_field
decode_blocks = decode_slice zero_block (decode_struct block_field)

-- The loop over the content blocks.
unfoldable pub block_texts : List Bytes → List ContentText → List Bytes
unfolding eq_bytes
block_texts out [] = out
block_texts out (b ∷ bs) =
    block_texts (if eq_bytes b.type (codes "text") then add_text out b.text else out) bs

-- `extractTextFromContent`, on bytes that are there.
unfoldable pub text_from_content : Bytes → List Bytes
unfolding unmarshal decode_string decode_blocks block_texts
text_from_content raw = elim (unmarshal decode_string [] raw) [
  | some s ↦ add_text [] s
  | none ↦ elim (unmarshal decode_blocks [] raw) [ none ↦ [] | some bs ↦ block_texts [] bs ]
]

unfoldable pub extract_text_from_content : Bytes → List Bytes
unfolding text_from_content
extract_text_from_content [] = []
extract_text_from_content (c ∷ raw) = text_from_content (c ∷ raw)

-- The loop over the messages.
unfoldable pub collect_messages : (Bytes → Bytes) → List Bytes → List RequestMessage → List Bytes
unfolding eq_bytes extract_text_from_content
collect_messages scrub out [] = out
collect_messages scrub out (m ∷ ms) =
    collect_messages scrub
      (if eq_bytes m.role (codes "user")
        then out ++ map scrub (extract_text_from_content m.content)
        else out)
      ms

unfoldable pub extract_user_messages : Bytes → (Bytes → Bytes) → List Bytes
unfolding unmarshal decode_body collect_messages
extract_user_messages body scrub = elim (unmarshal decode_body [] body) [
  | none ↦ []
  | some ms ↦ collect_messages scrub [] ms
]

abbrev pub request_capture_disabled : Bytes
request_capture_disabled = codes "[request capture disabled]"

unfoldable pub parse_request : Bytes → (Bytes → Bytes) → Bool → RequestResult
unfolding extract_user_messages
parse_request body scrub capture =
    if capture
    then record {
      user_messages = extract_user_messages body scrub;
      raw = scrub body;
      request_captured = true;
    }
    else record { user_messages = []; raw = request_capture_disabled; request_captured = false }

two_messages :
    extract_user_messages
      (codes
        "{\"messages\":[{\"role\":\"user\",\"content\":\"hi\"},{\"role\":\"assistant\",\"content\":\"no\"},{\"role\":\"user\",\"content\":[{\"type\":\"text\",\"text\":\"you\"},{\"type\":\"image\",\"text\":\"x\"}]}]}")
      (λ s. s)
    ≡ codes "hi" ∷ codes "you" ∷ []
unfolding extract_user_messages
two_messages = refl
