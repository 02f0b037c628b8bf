-- ===== src/Parser/Anthropic/Written/Parsing.antt =====
-- The parser of full responses on the bytes of a message.
use codesteward_audit_proxy.Base.{
  ◌≤◌, ◌≡◌, refl, ap, ◌∙◌, true, none, some, List, [], ◌∷◌, ◌++◌, map, append-nil, append_assoc,
  All,
}
use codesteward_audit_proxy.Base.Bytes.{Bytes}
use codesteward_audit_proxy.Json.Text.{unquote}
use codesteward_audit_proxy.Json.Scan.{space, max_depth}
use codesteward_audit_proxy.Json.Scan.Grammar.{Document, write, depth}
use codesteward_audit_proxy.Json.Scan.Brackets.{write-Starts}
use codesteward_audit_proxy.Json.Unmarshal.{unmarshal-write}
use codesteward_audit_proxy.Json.Decode.{unmarshal}
use codesteward_audit_proxy.Parser.Types.{add_text-append, or_empty_object}
use codesteward_audit_proxy.Parser.Anthropic.{
  AnthropicResult, AnthropicMessage, zero_message, decode_message, add_blocks, message_result,
  parse_anthropic_full,
}
use codesteward_audit_proxy.Parser.Anthropic.{add_block}
use codesteward_audit_proxy.Parser.Anthropic.Written.{
  Said, thinking_said, text_said, tool_said, Block, AnthropicBody, message_document,
  thinking_said_by, text_said_by, calls_said_by, thinking_of, text_of, calls_of, message_contents,
}
use codesteward_audit_proxy.Parser.Anthropic.Written.Decoding.{
  said_content, block_content, message_of, decode_message-message,
}

or_empty_object-write : (d : Document) → or_empty_object (write d) ≡ write d
or_empty_object-write d = let (c, cs, e, plain, no_bracket) = write-Starts d in rw e refl

add_block-said :
    (r : AnthropicResult) (s : Said)
    → add_block r (said_content s) ≡ record r {
      thinking = r.thinking ++ thinking_said_by s;
      assistant_text = r.assistant_text ++ text_said_by s;
      tool_calls = r.tool_calls ++ calls_said_by s;
    }
unfolding add_block said_content thinking_said_by text_said_by calls_said_by
add_block-said r (thinking_said t) =
    rw (append-nil r.assistant_text, append-nil r.tool_calls)
      (ap (λ ts. record r { thinking = ts }) (add_text-append r.thinking (unquote t.raw)))
add_block-said r (text_said t) =
    rw (append-nil r.thinking, append-nil r.tool_calls)
      (ap (λ ts. record r { assistant_text = ts })
        (add_text-append r.assistant_text (unquote t.raw)))
add_block-said r (tool_said n input) =
    rw (append-nil r.thinking, append-nil r.assistant_text, or_empty_object-write input) refl

add_blocks-blocks :
    (bs : List Block) (r : AnthropicResult)
    → add_blocks r (map block_content bs) ≡ record r {
      thinking = r.thinking ++ thinking_of bs;
      assistant_text = r.assistant_text ++ text_of bs;
      tool_calls = r.tool_calls ++ calls_of bs;
    }
unfolding add_blocks block_content thinking_of text_of calls_of
add_blocks-blocks [] r =
    rw (append-nil r.thinking, append-nil r.assistant_text, append-nil r.tool_calls) refl
add_blocks-blocks (b ∷ bs) r =
    ap (λ x. add_blocks x (map block_content bs)) (add_block-said r b.said)
    ∙ add_blocks-blocks bs _
    ∙ rw
        (
          append_assoc r.thinking (thinking_said_by b.said) (thinking_of bs),
          append_assoc r.assistant_text (text_said_by b.said) (text_of bs),
          append_assoc r.tool_calls (calls_said_by b.said) (calls_of bs),
        )
        refl

parse_anthropic_full-some :
    (body : Bytes) (m : AnthropicMessage)
    → unmarshal decode_message zero_message body ≡ some m
    → parse_anthropic_full body ≡ (add_blocks (message_result m) m.content, none)
unfolding parse_anthropic_full
parse_anthropic_full-some body m e = rw (e, parse_anthropic_full) refl

-- The bytes of a message, with space behind them, are parsed as exactly what the message says, with no
-- error: the thinking, the texts and the tool calls in their order, every input byte by byte, the
-- model and the four counts. The message has a model, a content of blocks of these three types, and a
-- usage with all four counts, each known member once and in this order; members of other keys, with
-- documents of any shape, may stand anywhere in the message, in its blocks and in its usage. The bytes
-- are those of the JSON grammar without space between the tokens, nested no deeper than encoding/json
-- allows.
pub parse_anthropic_full-write :
    (m : AnthropicBody) (rest : Bytes)
    → depth (message_document m) ≤ max_depth
    → All (λ c. space c ≡ true) rest
    → parse_anthropic_full (write (message_document m) ++ rest) ≡ (message_contents m, none)
unfolding message_contents message_result message_of
parse_anthropic_full-write m rest deep spaces =
    parse_anthropic_full-some (write (message_document m) ++ rest) (message_of m) (
      unmarshal-write decode_message zero_message (message_document m) rest deep spaces
      ∙ decode_message-message m)
    ∙ ap (λ r. (r, none)) (add_blocks-blocks m.blocks (message_result (message_of m)))
