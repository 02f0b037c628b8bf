-- ===== src/Parser/OpenAi/Written/Decoding.antt =====
-- json.Unmarshal of a response into the structs.
use codesteward_audit_proxy.Base.{
  ap, ◌∙◌, get_or_else, ◌>>=◌, ◌≡◌, refl, Option, none, some, List, [], ◌∷◌, map,
}
use codesteward_audit_proxy.Base.Bytes.{Bytes, codes}
use codesteward_audit_proxy.Base.Int.{pos}
use codesteward_audit_proxy.Json.Text.{unquote}
use codesteward_audit_proxy.Json.Quote.{quote}
use codesteward_audit_proxy.Json.Value.{Value, Items, array, object, string, member, no_members}
use codesteward_audit_proxy.Json.Scan.{items_of}
use codesteward_audit_proxy.Json.Scan.Grammar.{structure, sequence, write, meaning, meanings}
use codesteward_audit_proxy.Json.Pieces.{Escaped, escaped_document, count_document}
use codesteward_audit_proxy.Json.Decode.{
  is_tag, decode_int, decode_string, fold_members, decode_struct, decode_pointer, decode_slice,
  decode_slice-item,
}
use codesteward_audit_proxy.Parser.OpenAi.{
  OpenAiUsage, Function, Message, OpenAiResponse, zero_function, zero_message, zero_response,
  usage_field, decode_usage, tool_call_field, message_field, choice_field, response_field,
  decode_response,
}
use codesteward_audit_proxy.Json.Extended.{decode_struct-Extends}
use codesteward_audit_proxy.Parser.OpenAi.{zero_usage}
use codesteward_audit_proxy.Parser.OpenAi.Written.{
  message_tags, choice_tags, usage_tags, response_tags, WrittenCall, call_documents,
  content_document, calls_fields, message_fields, choice_fields, WrittenChoice, choice_documents,
  counts_fields, WrittenUsage, usage_document, response_fields, OpenAiBody, response_document,
}
use codesteward_audit_proxy.Parser.OpenAi.Written.Calls.{
  function_of, content_of, message_of, counts_of, message_field-foreign, choice_field-foreign,
  usage_field-foreign, response_field-foreign, decode-calls,
}

decode-content :
    (o : Option Escaped) → decode_string (meaning (content_document o)) [] ≡ some (content_of o)
unfolding decode_string meaning content_document content_of
decode-content none = refl
decode-content (some t) = refl

decode-content_alone :
    (v : Value) {t : Bytes} (raw : Bytes)
    → decode_string v [] ≡ some t
    → decode_struct message_field (object (member (codes "content") raw v no_members)) zero_message
      ≡ some (record { content = t; tool_calls = [] })
unfolding decode_struct is_tag message_field
decode-content_alone v raw ht = rw (ht, fold_members, message_field) refl

decode-content_calls :
    (v : Value) (vs : Items) {t : Bytes} {fs : List Function} (raw rt : Bytes)
    → decode_string v [] ≡ some t
    → decode_slice zero_function (decode_struct tool_call_field) (array vs) [] ≡ some fs
    → decode_struct message_field
        (object
          (member (codes "content") raw v (member (codes "tool_calls") rt (array vs) no_members)))
        zero_message
      ≡ some (record { content = t; tool_calls = fs })
unfolding decode_struct is_tag message_field
decode-content_calls v vs raw rt ht hs = rw (ht, hs, fold_members, message_field) refl

decode-known_message :
    (o : Option Escaped) (cs : Option (List WrittenCall))
    → decode_struct message_field (meaning (structure (message_fields o cs))) zero_message
      ≡ some (record { content = content_of o; tool_calls = map function_of (get_or_else cs []) })
unfolding meaning message_fields calls_fields quote unquote write
decode-known_message o none =
    decode-content_alone (meaning (content_document o)) (write (content_document o))
      (decode-content o)
decode-known_message o (some cs) =
    decode-content_calls (meaning (content_document o)) (items_of (meanings (call_documents cs)))
      (write (content_document o)) (write (sequence (call_documents cs))) (decode-content o)
      (decode-calls cs [])

decode-message :
    {m : Message} (v : Value) (raw : Bytes)
    → decode_struct message_field v zero_message ≡ some m
    → fold_members choice_field zero_message (member (codes "message") raw v no_members) ≡ some m
unfolding fold_members choice_field is_tag
decode-message v raw h = rw (h, fold_members) refl

decode-choice :
    (c : WrittenChoice)
    → decode_struct choice_field (meaning (structure c.fields)) zero_message ≡ some (message_of c)
unfolding message_of
decode-choice c =
    decode_struct-Extends choice_field choice_tags choice_field-foreign zero_message c.extends
    ∙ known
  where
    known :
        decode_struct choice_field (meaning (structure (choice_fields c.message))) zero_message
        ≡ some (message_of c)
    known =
        unfold decode_struct meaning quote unquote write in
        decode-message (meaning (structure c.message.fields)) (write (structure c.message.fields)) (
          decode_struct-Extends message_field message_tags message_field-foreign zero_message
            c.message.extends
          ∙ decode-known_message c.message.content c.message.tool_calls)

decode-choices :
    (cs : List WrittenChoice) (before : List Message)
    → decode_slice zero_message
        (decode_struct choice_field)
        (array (items_of (meanings (choice_documents cs))))
        before
      ≡ some (map message_of cs)
unfolding decode_slice choice_documents meaning
decode-choices [] before = refl
decode-choices (c ∷ cs) before =
    decode_slice-item zero_message (decode_struct choice_field) (meaning (structure c.fields))
      (items_of (meanings (choice_documents cs))) before (decode-choice c)
      (decode-choices cs before)

decode-counts :
    (u : WrittenUsage) (a b : Value) (ra rb : Bytes)
    → decode_int a (pos 0) ≡ some u.prompt.value
    → decode_int b (pos 0) ≡ some u.completion.value
    → decode_struct usage_field
        (object (
          member (codes "prompt_tokens") ra a (member (codes "completion_tokens") rb b no_members)))
        zero_usage
      ≡ some (record { prompt_tokens = u.prompt.value; completion_tokens = u.completion.value })
unfolding decode_struct is_tag usage_field
decode-counts u a b ra rb ha hb = rw (ha, hb, fold_members, usage_field) refl

decode-known_usage :
    (u : WrittenUsage)
    → decode_struct usage_field
        (meaning (structure (counts_fields u.prompt u.completion)))
        zero_usage
      ≡ some (record { prompt_tokens = u.prompt.value; completion_tokens = u.completion.value })
unfolding decode_int meaning quote unquote write
decode-known_usage u =
    decode-counts u (meaning (count_document u.prompt)) (meaning (count_document u.completion))
      (write (count_document u.prompt)) (write (count_document u.completion)) u.prompt.reads
      u.completion.reads

decode_usage-written :
    (o : Option WrittenUsage) → decode_usage (meaning (usage_document o)) none ≡ some (counts_of o)
unfolding decode_usage decode_pointer usage_document counts_of meaning
decode_usage-written none = refl
decode_usage-written (some u) =
    ap (λ r. r >>= λ a. some (some a))
      (decode_struct-Extends usage_field usage_tags usage_field-foreign zero_usage u.extends
        ∙ decode-known_usage u)

unfoldable pub response_of : OpenAiBody → OpenAiResponse
unfolding message_of counts_of unquote
response_of r = record {
  model = unquote r.model.raw;
  choices = map message_of r.choices;
  usage = counts_of r.usage;
}

module _ (t : Bytes) (vs : Items) (u : Value) {ms : List Message} {n : Option OpenAiUsage} where
  decode_response-parts :
      (rt rs ru : Bytes)
      → decode_slice zero_message (decode_struct choice_field) (array vs) [] ≡ some ms
      → decode_usage u none ≡ some n
      → decode_response
          (object (
            member
              (codes "model")
              rt
              (string t)
              (member (codes "choices") rs (array vs) (member (codes "usage") ru u no_members))))
          zero_response
        ≡ some (record { model = t; choices = ms; usage = n })
  unfolding decode_response is_tag
  decode_response-parts rt rs ru hs hu = rw (hs, hu, fold_members, response_field) refl

decode_response-known :
    (r : OpenAiBody)
    → decode_response
        (meaning (structure (response_fields r.model r.choices r.usage)))
        zero_response
      ≡ some (response_of r)
unfolding meaning response_fields quote unquote response_of write
decode_response-known r =
    decode_response-parts (unquote r.model.raw) (items_of (meanings (choice_documents r.choices)))
      (meaning (usage_document r.usage)) (write (escaped_document r.model))
      (write (sequence (choice_documents r.choices))) (write (usage_document r.usage))
      (decode-choices r.choices []) (decode_usage-written r.usage)

pub decode_response-written :
    (r : OpenAiBody)
    → decode_response (meaning (response_document r)) zero_response ≡ some (response_of r)
unfolding decode_response response_document
decode_response-written r =
    decode_struct-Extends response_field response_tags response_field-foreign zero_response
      r.extends
    ∙ decode_response-known r
