-- ===== src/Parser/OpenAi/Choices.antt =====
-- The loops over the choices of a full response, described at once.
use codesteward_audit_proxy.Base.{◌≡◌, ap, ◌∙◌, List, [], ◌∷◌, ◌++◌, map, append-nil, append_assoc}
use codesteward_audit_proxy.Base.Bytes.{Bytes}
use codesteward_audit_proxy.Parser.Types.{ToolCall, add_text, add_text-append}
use codesteward_audit_proxy.Parser.OpenAi.{
  OpenAiResult, Function, Message, call_of, add_calls, add_choices,
}

-- The contents that are not empty.
abbrev pub contents : List Message → List Bytes
contents [] = []
contents (m ∷ ms) = add_text [] m.content ++ contents ms

abbrev pub calls : List Message → List ToolCall
calls [] = []
calls (m ∷ ms) = map call_of m.tool_calls ++ calls ms

pub add_calls-map :
    (fs : List Function) (r : OpenAiResult)
    → add_calls r fs ≡ record r { tool_calls = r.tool_calls ++ map call_of fs }
unfolding add_calls
add_calls-map [] r = simp append-nil
add_calls-map (f ∷ fs) r =
    add_calls-map fs (record r { tool_calls = r.tool_calls ++ call_of f ∷ [] }) ∙ simp append_assoc

-- The parser of full responses collects, over all choices and in order, the contents that are not
-- empty and every tool call, an empty argument text replaced by an empty object; it changes nothing
-- else.
pub add_choices-collect :
    (ms : List Message) (r : OpenAiResult)
    → add_choices r ms ≡ record r {
      assistant_text = r.assistant_text ++ contents ms;
      tool_calls = r.tool_calls ++ calls ms;
    }
unfolding add_choices
add_choices-collect [] r = simp append-nil
add_choices-collect (m ∷ ms) r =
    ap (λ t. add_choices t ms)
      (add_calls-map m.tool_calls
        (record r { assistant_text = add_text r.assistant_text m.content }))
    ∙ add_choices-collect ms (record r {
      assistant_text = add_text r.assistant_text m.content;
      tool_calls = r.tool_calls ++ map call_of m.tool_calls;
    })
    ∙ simp (add_text-append r.assistant_text m.content, append_assoc)
