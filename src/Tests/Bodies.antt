-- ===== src/Tests/Bodies.antt =====
-- The bytes of small responses, a request and of the health check.
use codesteward_audit_proxy.Base.{
  String, List, Option, ◌≡◌, refl, none, some, [], ◌∷◌, ◌++◌, arith, map, true,
}
use codesteward_audit_proxy.Base.Bytes.{Bytes, codes, eq_bytes}
use codesteward_audit_proxy.Base.Int.{pos}
use codesteward_audit_proxy.Json.Quote.{quote, Ascii}
use codesteward_audit_proxy.Json.Text.{unquote}
use codesteward_audit_proxy.Json.Scan.{scan, digits, next_number, may_end}
use codesteward_audit_proxy.Json.Scan.Grammar.{
  number_ended, more, digit, Document, Fields, structure, no_fields, field, write, depth,
}
use codesteward_audit_proxy.Json.Scan.Quoted.{quoted, named, quote-IsText}
use codesteward_audit_proxy.Json.Extended.{NoneOf, Extends, done, keep, insert}
use codesteward_audit_proxy.Json.Pieces.{Escaped, Count}
use codesteward_audit_proxy.Json.Decode.{parse_int, is_tag}
use codesteward_audit_proxy.Proxy.Http.{Request, Response, no_body}
use codesteward_audit_proxy.Main.Server.{healthy, reply_to}
use codesteward_audit_proxy.Main.Server.Health.{health_object, reply_to-version}
use codesteward_audit_proxy.Parser.OpenAi.{parse_open_ai_full}
use codesteward_audit_proxy.Parser.OpenAi.Written.{
  function_fields, WrittenFunction, call_fields, WrittenCall, choice_fields, WrittenChoice,
  response_fields, OpenAiBody, response_document, response_contents,
}
use codesteward_audit_proxy.Parser.OpenAi.Written as OpenAiWritten
use codesteward_audit_proxy.Parser.OpenAi.Written.Parsing.{parse_open_ai_full-write}
use codesteward_audit_proxy.Parser.Request.{parse_request}
use codesteward_audit_proxy.Parser.Request.Written.{
  text_said, other_said, said_fields, part_tags, Part, Content, null_content, plain_content, parts,
  message_tags, message_fields, WrittenMessage, request_tags, request_fields, WrittenRequest,
  request_document, said_by_user,
}
use codesteward_audit_proxy.Parser.Request.Written.Parsing.{parse_request-write}
use codesteward_audit_proxy.Tests.Handler.{handler}
use codesteward_audit_proxy.Parser.Anthropic.{parse_anthropic_full}
use codesteward_audit_proxy.Parser.Anthropic.Written.{
  thinking_said, tool_said, Block, Counts, counts_fields, AnthropicBody, message_document,
  message_contents,
}
use codesteward_audit_proxy.Parser.Anthropic.Written as AnthropicWritten
use codesteward_audit_proxy.Parser.Anthropic.Written.Parsing.{parse_anthropic_full-write}

abbrev of_ascii : (s : Bytes) → Ascii s → Escaped
of_ascii s h = record { raw = quote s; is_text = quote-IsText s h }

twelve : Count
unfolding parse_int may_end next_number
twelve = record {
  first = b'1';
  state = digits;
  digits = b'2' ∷ [];
  leads = digit b'1' refl;
  is_number = more b'2' refl (number_ended refl);
  value = pos 12;
  reads = refl;
}

abbrev command : Document
command =
    structure
      (named (codes "command") (omega arith) (quoted (codes "ls <a>") (omega arith)) no_fields)

-- No member but the known ones.
exact : (tags : List String) (fs : Fields) → Extends tags fs fs
exact tags no_fields = done
exact tags (field k t d fs) = keep k t d (exact tags fs)

-- An id before all other members.
abbrev id_text : Document
id_text = quoted (codes "x1") (omega arith)

abbrev with_id : Fields → Fields
with_id fs = named (codes "id") (omega arith) id_text fs

with_id-Extends :
    (tags : List String) (fs : Fields)
    → NoneOf tags (unquote (quote (codes "id")))
    → Extends tags fs (with_id fs)
with_id-Extends tags fs none_of =
    insert (quote (codes "id")) (quote-IsText (codes "id") (omega arith)) id_text none_of
      (exact tags fs)

abbrev exact_block : AnthropicWritten.Said → Block
exact_block s = record {
  said = s;
  fields = AnthropicWritten.said_fields s;
  extends = exact AnthropicWritten.block_tags (AnthropicWritten.said_fields s);
}

block_id : NoneOf AnthropicWritten.block_tags (unquote (quote (codes "id")))
unfolding is_tag unquote quote
block_id = (refl, (refl, (refl, (refl, (refl, tt)))))

abbrev block_with_id : AnthropicWritten.Said → Block
block_with_id s = record {
  said = s;
  fields = with_id (AnthropicWritten.said_fields s);
  extends = with_id-Extends AnthropicWritten.block_tags (AnthropicWritten.said_fields s) block_id;
}

abbrev twelves : Counts
twelves = record { input = twelve; output = twelve; cache_creation = twelve; cache_read = twelve }

message_id : NoneOf AnthropicWritten.message_tags (unquote (quote (codes "id")))
unfolding is_tag unquote quote
message_id = (refl, (refl, (refl, tt)))

abbrev listed : List Block
listed =
    exact_block (thinking_said (of_ascii (codes "a \"b\"") (omega arith)))
    ∷ exact_block (AnthropicWritten.text_said (of_ascii (codes "x\ny") (omega arith)))
    ∷ block_with_id (tool_said (of_ascii (codes "Bash") (omega arith)) command)
    ∷ []

abbrev all_twelve : AnthropicWritten.WrittenUsage
all_twelve = record {
  counts = twelves;
  fields = counts_fields twelves;
  extends = exact AnthropicWritten.usage_tags (counts_fields twelves);
}

abbrev listing : AnthropicBody
listing =
    let model = of_ascii (codes "m") (omega arith) in
    record {
      model = model;
      blocks = listed;
      usage = all_twelve;
      fields = with_id (AnthropicWritten.message_fields model listed all_twelve);
      extends =
          with_id-Extends AnthropicWritten.message_tags
            (AnthropicWritten.message_fields model listed all_twelve) message_id;
    }

listing_bytes :
    write (message_document listing)
    ≡ codes
        "{\"id\":\"x1\",\"model\":\"m\",\"content\":[{\"type\":\"thinking\",\"thinking\":\"a \\\"b\\\"\"},{\"type\":\"text\",\"text\":\"x\\ny\"},{\"id\":\"x1\",\"type\":\"tool_use\",\"name\":\"Bash\",\"input\":{\"command\":\"ls \\u003ca\\u003e\"}}],\"usage\":{\"input_tokens\":12,\"output_tokens\":12,\"cache_creation_input_tokens\":12,\"cache_read_input_tokens\":12}}"
unfolding write message_document AnthropicWritten.message_fields twelve quote
listing_bytes = refl

listing_contents :
    ((message_contents listing).thinking ≡ codes "a \"b\"" ∷ [])
    × ((message_contents listing).assistant_text ≡ codes "x\ny" ∷ [])
    × ((message_contents listing).tool_calls
        ≡ record { name = codes "Bash"; input = codes "{\"command\":\"ls \\u003ca\\u003e\"}" } ∷ [])
unfolding message_contents quote unquote write
listing_contents = (refl, refl, refl)

parse_anthropic_full-write_example :
    parse_anthropic_full (write (message_document listing) ++ codes "\n")
    ≡ (message_contents listing, none)
parse_anthropic_full-write_example =
    parse_anthropic_full-write listing (codes "\n")
      (unfold depth message_document AnthropicWritten.message_fields twelve in omega arith)
      (refl, tt)

abbrev probe : Request
probe = record {
  method = codes "GET";
  host = codes "proxy";
  url = record { scheme = []; host = []; path = codes "/healthz"; query = [] };
  header = [];
  body = no_body;
}

reply_to-version_example :
    (answer : Response) × (reply_to
        (λ e. [])
        (λ h. h)
        (λ r. none)
        (codes "v1 <x>")
        handler
        (codes "u1")
        (codes "u2")
        1
        2
        none
        probe
      ≡ healthy answer)
    × (answer.status_code ≡ pos 200)
    × (scan answer.body ≡ some (health_object (codes "v1 <x>")))
reply_to-version_example =
    reply_to-version (λ e. []) (λ h. h) (λ r. none) (codes "v1 <x>") handler (codes "u1")
      (codes "u2") 1 2 none probe refl refl (omega arith)

call_id : NoneOf OpenAiWritten.call_tags (unquote (quote (codes "id")))
unfolding is_tag unquote quote
call_id = (refl, tt)

abbrev call_with_id : Escaped → Escaped → WrittenCall
call_with_id name arguments =
    let called : WrittenFunction = record {
      name = name;
      arguments = arguments;
      fields = function_fields name arguments;
      extends = exact OpenAiWritten.function_tags (function_fields name arguments);
    } in
    record {
      function = called;
      fields = with_id (call_fields called);
      extends = with_id-Extends OpenAiWritten.call_tags (call_fields called) call_id;
    }

abbrev choice_with : Option Escaped → Option (List WrittenCall) → WrittenChoice
choice_with content tool_calls =
    let written : OpenAiWritten.WrittenMessage = record {
      content = content;
      tool_calls = tool_calls;
      fields = OpenAiWritten.message_fields content tool_calls;
      extends = exact OpenAiWritten.message_tags (OpenAiWritten.message_fields content tool_calls);
    } in
    record {
      message = written;
      fields = choice_fields written;
      extends = exact OpenAiWritten.choice_tags (choice_fields written);
    }

response_id : NoneOf OpenAiWritten.response_tags (unquote (quote (codes "id")))
unfolding is_tag unquote quote
response_id = (refl, (refl, (refl, tt)))

abbrev chosen : List WrittenChoice
chosen =
    choice_with none (
      some (
        call_with_id (of_ascii (codes "Bash") (omega arith))
          (of_ascii (codes "{\"c\":1}") (omega arith))
        ∷ call_with_id (of_ascii (codes "Now") (omega arith)) (of_ascii [] tt)
        ∷ []))
    ∷ choice_with (some (of_ascii (codes "hey") (omega arith))) none
    ∷ []

abbrev twelve_both : Option OpenAiWritten.WrittenUsage
twelve_both = some (record {
  prompt = twelve;
  completion = twelve;
  fields = OpenAiWritten.counts_fields twelve twelve;
  extends = exact OpenAiWritten.usage_tags (OpenAiWritten.counts_fields twelve twelve);
})

abbrev completion : OpenAiBody
completion =
    let model = of_ascii (codes "g") (omega arith) in
    record {
      model = model;
      choices = chosen;
      usage = twelve_both;
      fields = with_id (response_fields model chosen twelve_both);
      extends =
          with_id-Extends OpenAiWritten.response_tags (response_fields model chosen twelve_both)
            response_id;
    }

completion_bytes :
    write (response_document completion)
    ≡ codes
        "{\"id\":\"x1\",\"model\":\"g\",\"choices\":[{\"message\":{\"content\":null,\"tool_calls\":[{\"id\":\"x1\",\"function\":{\"name\":\"Bash\",\"arguments\":\"{\\\"c\\\":1}\"}},{\"id\":\"x1\",\"function\":{\"name\":\"Now\",\"arguments\":\"\"}}]}},{\"message\":{\"content\":\"hey\"}}],\"usage\":{\"prompt_tokens\":12,\"completion_tokens\":12}}"
unfolding write response_document response_fields OpenAiWritten.message_fields quote twelve
completion_bytes = refl

completion_contents :
    ((response_contents completion).assistant_text ≡ codes "hey" ∷ [])
    × ((response_contents completion).tool_calls
        ≡ record { name = codes "Bash"; input = codes "{\"c\":1}" }
          ∷ record { name = codes "Now"; input = codes "{}" }
          ∷ [])
unfolding response_contents quote unquote
completion_contents = (refl, refl)

parse_open_ai_full-write_example :
    parse_open_ai_full (write (response_document completion) ++ [])
    ≡ (response_contents completion, none)
parse_open_ai_full-write_example =
    parse_open_ai_full-write completion []
      (unfold depth response_document response_fields OpenAiWritten.message_fields twelve in
        omega arith)
      tt

part_id : NoneOf part_tags (unquote (quote (codes "id")))
unfolding is_tag unquote quote
part_id = (refl, (refl, tt))

tool_result : Part
unfolding eq_bytes unquote quote
tool_result =
    let said = other_said (of_ascii (codes "tool_result") (omega arith)) refl in
    record {
      said = said;
      fields = with_id (said_fields said);
      extends = with_id-Extends part_tags (said_fields said) part_id;
    }

abbrev go_on : Part
go_on =
    let said = text_said (of_ascii (codes "go on") (omega arith)) in
    record { said = said; fields = said_fields said; extends = exact part_tags (said_fields said) }

abbrev message_with : Escaped → Content → WrittenMessage
message_with role content = record {
  role = role;
  content = content;
  fields = message_fields role content;
  extends = exact message_tags (message_fields role content);
}

request_id : NoneOf request_tags (unquote (quote (codes "id")))
unfolding is_tag unquote quote
request_id = (refl, tt)

abbrev asked : List WrittenMessage
asked =
    message_with (of_ascii (codes "user") (omega arith))
      (plain_content (of_ascii (codes "hi") (omega arith)))
    ∷ message_with (of_ascii (codes "assistant") (omega arith)) null_content
    ∷ message_with (of_ascii (codes "user") (omega arith)) (parts (tool_result ∷ go_on ∷ []))
    ∷ []

abbrev question : WrittenRequest
question = record {
  messages = asked;
  fields = with_id (request_fields asked);
  extends = with_id-Extends request_tags (request_fields asked) request_id;
}

question_bytes :
    write (request_document question)
    ≡ codes
        "{\"id\":\"x1\",\"messages\":[{\"role\":\"user\",\"content\":\"hi\"},{\"role\":\"assistant\",\"content\":null},{\"role\":\"user\",\"content\":[{\"id\":\"x1\",\"type\":\"tool_result\"},{\"type\":\"text\",\"text\":\"go on\"}]}]}"
unfolding write request_document request_fields message_fields quote tool_result
question_bytes = refl

question_said : said_by_user question.messages ≡ codes "hi" ∷ codes "go on" ∷ []
unfolding said_by_user quote unquote tool_result
question_said = refl

parse_request-write_example :
    parse_request (write (request_document question) ++ codes "\n") (λ s. b'#' ∷ s) true ≡ record {
      user_messages = map (λ s. b'#' ∷ s) (said_by_user question.messages);
      raw = b'#' ∷ write (request_document question) ++ codes "\n";
      request_captured = true;
    }
parse_request-write_example =
    parse_request-write question (codes "\n") (λ s. b'#' ∷ s)
      (unfold depth request_document request_fields message_fields tool_result in omega arith)
      (refl, tt)
