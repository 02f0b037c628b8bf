-- ===== src/Parser/OpenAi/Written/Calls.antt =====
-- What the structs hold of a response, and json.Unmarshal of its tool calls.
use codesteward_audit_proxy.Base.{
  ◌∙◌, get_or_else, ◌≡◌, refl, Option, none, some, List, [], ◌∷◌, map,
}
use codesteward_audit_proxy.Base.Bytes.{Bytes, codes}
use codesteward_audit_proxy.Json.Text.{unquote}
use codesteward_audit_proxy.Json.Quote.{quote}
use codesteward_audit_proxy.Json.Value.{Value, array, object, member, no_members}
use codesteward_audit_proxy.Json.Scan.{items_of}
use codesteward_audit_proxy.Json.Scan.Grammar.{structure, write, meaning, meanings}
use codesteward_audit_proxy.Json.Pieces.{Escaped}
use codesteward_audit_proxy.Json.Decode.{
  is_tag, fold_members, decode_struct, decode_slice, decode_slice-item,
}
use codesteward_audit_proxy.Parser.OpenAi.{
  OpenAiUsage, Function, Message, OpenAiResponse, zero_function, usage_field, tool_call_field,
  message_field, choice_field, response_field,
}
use codesteward_audit_proxy.Json.Extended.{NoneOf, decode_struct-Extends}
use codesteward_audit_proxy.Parser.OpenAi.{function_field, decode_function}
use codesteward_audit_proxy.Parser.OpenAi.Written.{
  function_tags, call_tags, message_tags, choice_tags, usage_tags, response_tags, function_fields,
  WrittenFunction, call_fields, WrittenCall, call_documents, WrittenChoice, WrittenUsage,
}

-- What the structs hold after the parse.
unfoldable pub function_of : WrittenCall → Function
unfolding unquote
function_of c = record {
  name = unquote c.function.name.raw;
  arguments = unquote c.function.arguments.raw;
}

unfoldable pub content_of : Option Escaped → Bytes
unfolding unquote
content_of none = []
content_of (some t) = unquote t.raw

unfoldable pub message_of : WrittenChoice → Message
unfolding content_of function_of
message_of c = record {
  content = content_of c.message.content;
  tool_calls = map function_of (get_or_else c.message.tool_calls []);
}

unfoldable pub counts_of : Option WrittenUsage → Option OpenAiUsage
counts_of none = none
counts_of (some u) =
    some (record { prompt_tokens = u.prompt.value; completion_tokens = u.completion.value })

-- A key of no field is passed over.
module _ (key raw : Bytes) (v : Value) where
  function_field-foreign :
      (f : Function) → NoneOf function_tags key → function_field key raw v f ≡ some f
  unfolding function_field
  function_field-foreign f h = rw (h.0, h.1.0) refl

  tool_call_field-foreign :
      (f : Function) → NoneOf call_tags key → tool_call_field key raw v f ≡ some f
  unfolding tool_call_field
  tool_call_field-foreign f h = rw h.0 refl

  pub message_field-foreign :
      (m : Message) → NoneOf message_tags key → message_field key raw v m ≡ some m
  unfolding message_field
  message_field-foreign m h = rw (h.0, h.1.0) refl

  pub choice_field-foreign :
      (m : Message) → NoneOf choice_tags key → choice_field key raw v m ≡ some m
  unfolding choice_field
  choice_field-foreign m h = rw h.0 refl

  pub usage_field-foreign :
      (u : OpenAiUsage) → NoneOf usage_tags key → usage_field key raw v u ≡ some u
  unfolding usage_field
  usage_field-foreign u h = rw (h.0, h.1.0) refl

  pub response_field-foreign :
      (r : OpenAiResponse) → NoneOf response_tags key → response_field key raw v r ≡ some r
  unfolding response_field
  response_field-foreign r h = rw (h.0, h.1.0, h.1.1.0) refl

decode-function :
    (f : WrittenFunction)
    → decode_function (meaning (structure f.fields)) zero_function
      ≡ some (record { name = unquote f.name.raw; arguments = unquote f.arguments.raw })
unfolding decode_function
decode-function f =
    decode_struct-Extends function_field function_tags function_field-foreign zero_function
      f.extends
    ∙ known
  where
    known :
        decode_struct function_field
          (meaning (structure (function_fields f.name f.arguments)))
          zero_function
        ≡ some (record { name = unquote f.name.raw; arguments = unquote f.arguments.raw })
    known = unfold decode_struct function_field meaning quote unquote is_tag in refl

decode-member :
    {f : Function} (v : Value) (raw : Bytes)
    → decode_function v zero_function ≡ some f
    → decode_struct tool_call_field
        (object (member (codes "function") raw v no_members))
        zero_function
      ≡ some f
unfolding decode_struct is_tag tool_call_field
decode-member v raw h = rw (h, fold_members, tool_call_field) refl

decode-call :
    (c : WrittenCall)
    → decode_struct tool_call_field (meaning (structure c.fields)) zero_function
      ≡ some (function_of c)
unfolding function_of
decode-call c =
    decode_struct-Extends tool_call_field call_tags tool_call_field-foreign zero_function c.extends
    ∙ known
  where
    known :
        decode_struct tool_call_field (meaning (structure (call_fields c.function))) zero_function
        ≡ some (function_of c)
    known =
        unfold meaning quote unquote write in
        decode-member (meaning (structure c.function.fields)) (write (structure c.function.fields))
          (decode-function c.function)

pub decode-calls :
    (cs : List WrittenCall) (before : List Function)
    → decode_slice zero_function
        (decode_struct tool_call_field)
        (array (items_of (meanings (call_documents cs))))
        before
      ≡ some (map function_of cs)
unfolding decode_slice call_documents meaning
decode-calls [] before = refl
decode-calls (c ∷ cs) before =
    decode_slice-item zero_function (decode_struct tool_call_field) (meaning (structure c.fields))
      (items_of (meanings (call_documents cs))) before (decode-call c) (decode-calls cs before)
