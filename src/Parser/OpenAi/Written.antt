-- ===== src/Parser/OpenAi/Written.antt =====
-- A full response of the Chat Completions API, as the bytes of a body, and what it says.
pub mod Calls
pub mod Decoding
pub mod Parsing
use codesteward_audit_proxy.Base.{
  String, get_or_else, Option, none, some, List, [], ◌∷◌, ◌++◌, arith,
}
use codesteward_audit_proxy.Base.Bytes.{Bytes, codes}
use codesteward_audit_proxy.Base.Int.{pos}
use codesteward_audit_proxy.Json.Text.{unquote}
use codesteward_audit_proxy.Json.Quote.{quote}
use codesteward_audit_proxy.Json.Scan.Grammar.{
  Document, literal, null_literal, sequence, structure, Documents, no_documents, document, Fields,
  no_fields,
}
use codesteward_audit_proxy.Json.Pieces.{Escaped, Count, escaped_document, count_document}
use codesteward_audit_proxy.Json.Extended.{Extends}
use codesteward_audit_proxy.Json.Scan.Quoted.{named}
use codesteward_audit_proxy.Parser.Types.{ToolCall, TokenUsage, no_usage, add_text, or_empty_object}
use codesteward_audit_proxy.Parser.OpenAi.{OpenAiResult}

abbrev pub function_tags : List String
function_tags = "name" ∷ "arguments" ∷ []

abbrev pub call_tags : List String
call_tags = "function" ∷ []

abbrev pub message_tags : List String
message_tags = "content" ∷ "tool_calls" ∷ []

abbrev pub choice_tags : List String
choice_tags = "message" ∷ []

abbrev pub usage_tags : List String
usage_tags = "prompt_tokens" ∷ "completion_tokens" ∷ []

abbrev pub response_tags : List String
response_tags = "model" ∷ "choices" ∷ "usage" ∷ []

abbrev pub function_fields : Escaped → Escaped → Fields
function_fields name arguments =
    named (codes "name") (omega arith) (escaped_document name)
      (named (codes "arguments") (omega arith) (escaped_document arguments) no_fields)

-- A function: its name, and its arguments, themselves a text of JSON. Here and below there may be
-- other members anywhere.
pub record WrittenFunction : Type 0 where
  pub name : Escaped
  pub arguments : Escaped
  pub fields : Fields
  pub extends : Extends function_tags (function_fields name arguments) fields

abbrev pub call_fields : WrittenFunction → Fields
call_fields f = named (codes "function") (omega arith) (structure f.fields) no_fields

-- A tool call, with an id and a type as a rule.
pub record WrittenCall : Type 0 where
  pub function : WrittenFunction
  pub fields : Fields
  pub extends : Extends call_tags (call_fields function) fields

pub call_documents : List WrittenCall → Documents
call_documents [] = no_documents
call_documents (c ∷ cs) = document (structure c.fields) (call_documents cs)

content_document : Option Escaped → Document
content_document none = literal null_literal
content_document (some t) = escaped_document t

calls_fields : Option (List WrittenCall) → Fields
unfolding call_documents
calls_fields none = no_fields
calls_fields (some cs) =
    named (codes "tool_calls") (omega arith) (sequence (call_documents cs)) no_fields

unfoldable pub message_fields : Option Escaped → Option (List WrittenCall) → Fields
unfolding content_document calls_fields
message_fields content tool_calls =
    named (codes "content") (omega arith) (content_document content) (calls_fields tool_calls)

-- The message of a choice: a content that may be null, and behind it tool calls, if there are any.
pub record WrittenMessage : Type 0 where
  pub content : Option Escaped
  pub tool_calls : Option (List WrittenCall)
  pub fields : Fields
  pub extends : Extends message_tags (message_fields content tool_calls) fields

abbrev pub choice_fields : WrittenMessage → Fields
choice_fields m = named (codes "message") (omega arith) (structure m.fields) no_fields

-- A choice, with an index and a reason to finish as a rule.
pub record WrittenChoice : Type 0 where
  pub message : WrittenMessage
  pub fields : Fields
  pub extends : Extends choice_tags (choice_fields message) fields

choice_documents : List WrittenChoice → Documents
choice_documents [] = no_documents
choice_documents (c ∷ cs) = document (structure c.fields) (choice_documents cs)

abbrev pub counts_fields : Count → Count → Fields
counts_fields prompt completion =
    named (codes "prompt_tokens") (omega arith) (count_document prompt)
      (named (codes "completion_tokens") (omega arith) (count_document completion) no_fields)

-- The counts of the prompt and of the completion.
pub record WrittenUsage : Type 0 where
  pub prompt : Count
  pub completion : Count
  pub fields : Fields
  pub extends : Extends usage_tags (counts_fields prompt completion) fields

usage_document : Option WrittenUsage → Document
usage_document none = literal null_literal
usage_document (some u) = structure u.fields

unfoldable pub response_fields : Escaped → List WrittenChoice → Option WrittenUsage → Fields
unfolding choice_documents usage_document
response_fields model choices usage = named (codes "model") (omega arith) (escaped_document model) (
    named (codes "choices") (omega arith) (sequence (choice_documents choices))
      (named (codes "usage") (omega arith) (usage_document usage) no_fields))

-- A response: the model, the choices and the usage, which may be null, in this order.
pub record OpenAiBody : Type 0 where
  pub model : Escaped
  pub choices : List WrittenChoice
  pub usage : Option WrittenUsage
  pub fields : Fields
  pub extends : Extends response_tags (response_fields model choices usage) fields

-- The body of a response.
unfoldable pub response_document : OpenAiBody → Document
response_document r = structure r.fields

-- What the response says, written down without the parser.
content_said : Option Escaped → List Bytes
unfolding unquote
content_said none = []
content_said (some t) = add_text [] (unquote t.raw)

texts_of : List WrittenChoice → List Bytes
unfolding content_said
texts_of [] = []
texts_of (c ∷ cs) = content_said c.message.content ++ texts_of cs

calls_of : List WrittenCall → List ToolCall
calls_of [] = []
calls_of (c ∷ cs) =
    record {
      name = unquote c.function.name.raw;
      input = or_empty_object (unquote c.function.arguments.raw);
    }
    ∷ calls_of cs

all_calls_of : List WrittenChoice → List ToolCall
unfolding calls_of
all_calls_of [] = []
all_calls_of (c ∷ cs) = calls_of (get_or_else c.message.tool_calls []) ++ all_calls_of cs

usage_of : Option WrittenUsage → TokenUsage
usage_of none = no_usage
usage_of (some u) = record no_usage {
  input_tokens = u.prompt.value;
  output_tokens = u.completion.value;
}

-- The result that carries the response.
unfoldable pub response_contents : OpenAiBody → OpenAiResult
unfolding texts_of all_calls_of usage_of
response_contents r = record {
  assistant_text = texts_of r.choices;
  tool_calls = all_calls_of r.choices;
  model = unquote r.model.raw;
  usage = usage_of r.usage;
}
