-- ===== src/Parser/SapAiCore.antt =====
-- internal/parser/sapaicore.go and internal/parser/gemini.go.
pub mod Laws
use codesteward_audit_proxy.Base.{
  ◌≡◌, refl, Bool, true, Option, none, some, List, [], ◌∷◌, ◌==◌, if◌then◌else◌, get_or_else, ◌>>=◌,
  is_nil,
}
use codesteward_audit_proxy.Base.Bytes.{Bytes, codes, strip_prefix, has_suffix, trim_right}
use codesteward_audit_proxy.Parser.Types.{ToolCall, TokenUsage, no_usage, ParseError}
use codesteward_audit_proxy.Parser.OpenAi.{OpenAiResult}
use codesteward_audit_proxy.Parser.OpenAi.Stream.{parse_open_ai}

pub record SapAiCoreResult : Type 0 where
  pub assistant_text : List Bytes
  pub tool_calls : List ToolCall
  pub model : Bytes
  pub resource_group : Bytes
  pub usage : TokenUsage

-- A text up to its first slash, if it has one.
unfoldable pub up_to_slash : Bytes → Option Bytes
up_to_slash [] = none
up_to_slash (c ∷ s) =
    let rest = up_to_slash s in if c == b'/' then some [] else (rest >>= λ t. some (c ∷ t))

-- A match of `/deployments/([^/]+)/` at the beginning of a text: its group, which has a byte at least.
unfoldable pub deployment_here : Bytes → Option Bytes
unfolding strip_prefix up_to_slash
deployment_here s = strip_prefix (codes "/deployments/") s >>= λ t.
    up_to_slash t >>= λ id. if is_nil id then none else some id

-- The group of the leftmost match.
unfoldable pub deployment_id : Bytes → Option Bytes
unfolding deployment_here
deployment_id [] = none
deployment_id (c ∷ s) = elim (deployment_here (c ∷ s)) [
  | some id ↦ some id
  | none ↦ deployment_id s
]

-- A path that ends in /invoke, slashes behind it aside.
unfoldable pub is_native_mode : Bytes → Bool
unfolding has_suffix trim_right
is_native_mode path = has_suffix (trim_right (codes "/") path) (codes "/invoke")

-- `if result.Model == ""`
abbrev pub or_model : Bytes → Bytes → Bytes
or_model [] alias = alias
or_model (c ∷ s) alias = c ∷ s

-- The result before the body is read.
unfoldable pub sap_base : Bytes → Bytes → SapAiCoreResult
unfolding deployment_id
sap_base path group = record {
  assistant_text = [];
  tool_calls = [];
  model = get_or_else (deployment_id path) [];
  resource_group = group;
  usage = no_usage;
}

-- The OpenAI result over the base.
abbrev pub sap_fill :
    SapAiCoreResult → OpenAiResult × Option ParseError → SapAiCoreResult × Option ParseError
sap_fill base (r, some e) = (base, some e)
sap_fill base (r, none) = (
  record base {
    assistant_text = r.assistant_text;
    tool_calls = r.tool_calls;
    usage = r.usage;
    model = or_model base.model r.model;
  },
  none,
)

unfoldable pub parse_sap_ai_core :
    Bytes → Bool → Bytes → Bytes → SapAiCoreResult × Option ParseError
unfolding sap_base is_native_mode
parse_sap_ai_core body is_stream path group =
    if is_native_mode path
    then (sap_base path group, none)
    else sap_fill (sap_base path group) (parse_open_ai body is_stream)

-- gemini.go: nothing is read yet.
pub record GeminiResult : Type 0 where
  pub assistant_text : List Bytes
  pub tool_calls : List ToolCall
  pub model : Bytes

unfoldable pub parse_gemini : Bytes → Bool → GeminiResult × Option ParseError
parse_gemini body is_stream = (record { assistant_text = []; tool_calls = []; model = [] }, none)

deployment_of :
    (deployment_id (codes "/v2/inference/deployments/d123/chat/completions") ≡ some (codes "d123"))
    × (deployment_id (codes "/deployments//x") ≡ none)
    × (is_native_mode (codes "/deployments/d/invoke//") ≡ true)
unfolding deployment_id is_native_mode
deployment_of = (refl, refl, refl)
