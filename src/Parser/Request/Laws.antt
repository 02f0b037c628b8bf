-- ===== src/Parser/Request/Laws.antt =====
-- What is stored of a request's messages.
use codesteward_audit_proxy.Base.{
  ◌≡◌, refl, ◌∙◌, inl, inr, true, none, some, List, [], ◌∷◌, ◌++◌, map, append-nil, append_assoc,
  map-append, if◌then◌else◌, Bool-cases, Option, get_or_else,
}
use codesteward_audit_proxy.Base.Bytes.{Bytes, codes, eq_bytes}
use codesteward_audit_proxy.Json.Decode.{unmarshal}
use codesteward_audit_proxy.Parser.Request.{
  RequestMessage, decode_body, extract_text_from_content, collect_messages, extract_user_messages,
  parse_request,
}

-- The texts of the messages whose role is user.
unfoldable pub user_texts : List RequestMessage → List Bytes
unfolding eq_bytes
user_texts [] = []
user_texts (m ∷ ms) =
    if eq_bytes m.role (codes "user")
    then extract_text_from_content m.content ++ user_texts ms
    else user_texts ms

collect_messages-user_texts :
    (scrub : Bytes → Bytes) (ms : List RequestMessage) (out : List Bytes)
    → collect_messages scrub out ms ≡ out ++ map scrub (user_texts ms)
unfolding collect_messages user_texts
collect_messages-user_texts scrub [] out = simp append-nil
collect_messages-user_texts scrub (m ∷ ms) out =
    elim (Bool-cases (eq_bytes m.role (codes "user"))) [
      | inr other ↦ rw other (collect_messages-user_texts scrub ms out)
      | inl user ↦ rw user (
          collect_messages-user_texts scrub ms
            (out ++ map scrub (extract_text_from_content m.content))
          ∙ simp (append_assoc, map-append))
    ]

-- Of a captured request the body is stored scrubbed, and the user messages are the texts of the
-- messages whose role is user, in order, each of them scrubbed; none where the body is not such JSON.
pub parse_request-scrubs :
    (body : Bytes) (scrub : Bytes → Bytes)
    → ((parse_request body scrub true).raw ≡ scrub body)
      × ((parse_request body scrub true).user_messages
          ≡ map scrub (user_texts (get_or_else (unmarshal decode_body [] body) [])))
      × ((parse_request body scrub true).request_captured ≡ true)
unfolding parse_request extract_user_messages
parse_request-scrubs body scrub = (refl, collected (unmarshal decode_body [] body), refl)
  where
    collected :
        (o : Option (List RequestMessage))
        → elim o [ none ↦ [] | some ms ↦ collect_messages scrub [] ms ]
          ≡ map scrub (user_texts (get_or_else o []))
    collected none = unfold user_texts in refl
    collected (some ms) = collect_messages-user_texts scrub ms []
