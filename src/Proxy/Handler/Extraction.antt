-- ===== src/Proxy/Handler/Extraction.antt =====
-- What extract_events makes of each outcome of the parsers.
use codesteward_audit_proxy.Base.{
  ℕ, ◌≡◌, refl, ap, ◌∙◌, inl, inr, Bool, false, Option, none, some, List, [], ◌∷◌, Bool-cases,
  is_nil, All,
}
use codesteward_audit_proxy.Base.Bytes.{Bytes, codes, eq_bytes}
use codesteward_audit_proxy.Audit.Event.{AuditEvent}
use codesteward_audit_proxy.Parser.Types.{ToolCall, TokenUsage, ParseError}
use codesteward_audit_proxy.Parser.Anthropic.{AnthropicResult}
use codesteward_audit_proxy.Parser.Anthropic.Stream.{parse_anthropic}
use codesteward_audit_proxy.Parser.OpenAi.{OpenAiResult}
use codesteward_audit_proxy.Parser.OpenAi.Stream.{parse_open_ai}
use codesteward_audit_proxy.Parser.SapAiCore.{SapAiCoreResult, parse_sap_ai_core}
use codesteward_audit_proxy.Proxy.Handler.{
  RequestMeta, base_event, apply_usage, build_tool_events, Extracted, anthropic_events,
  open_ai_events, sap_ai_core_events, extract_events,
}
use codesteward_audit_proxy.Proxy.Handler.Events.{
  Describes, Turn, All-build, Describes-tool_event, build-Turn, with_content-Describes,
  is_blank_result, is_blank_plain,
}

anthropic_events-full :
    (base : AuditEvent) (r : AnthropicResult)
    → is_blank_result r.model r.thinking r.assistant_text r.tool_calls ≡ false
    → anthropic_events base (r, none) ≡ (
      some (
          build_tool_events
            (apply_usage r.usage (record base {
              thinking = r.thinking;
              assistant_text = r.assistant_text;
              model = r.model;
            }))
            r.tool_calls),
      none,
    )
unfolding anthropic_events
anthropic_events-full base r full = rw full

open_ai_events-full :
    (base : AuditEvent) (r : OpenAiResult)
    → is_blank_plain r.model r.assistant_text r.tool_calls ≡ false
    → open_ai_events base (r, none) ≡ (
      some (
          build_tool_events
            (apply_usage r.usage
              (record base { assistant_text = r.assistant_text; model = r.model }))
            r.tool_calls),
      none,
    )
unfolding open_ai_events
open_ai_events-full base r full = rw full

sap_ai_core_events-full :
    (base : AuditEvent) (r : SapAiCoreResult)
    → is_blank_plain r.model r.assistant_text r.tool_calls ≡ false
    → sap_ai_core_events base (r, none) ≡ (
      some (
          build_tool_events
            (apply_usage r.usage (record base {
              assistant_text = r.assistant_text;
              model = r.model;
              resource_group = r.resource_group;
            }))
            r.tool_calls),
      none,
    )
unfolding sap_ai_core_events
sap_ai_core_events-full base r full = rw full

module _ (meta : RequestMeta) (ts : ℕ) (body : Bytes) (is_stream : Bool) where
  -- An Anthropic response that is parsed and is not blank becomes one event for each tool call, in
  -- order, or a single one without a tool; each with the whole body, the turn's identity, and the
  -- same usage, model, thinking and texts, those of the parsed result.
  pub extract_events-anthropic :
      (r : AnthropicResult)
      → meta.upstream_name ≡ codes "anthropic"
      → parse_anthropic body is_stream ≡ (r, none)
      → is_blank_result r.model r.thinking r.assistant_text r.tool_calls ≡ false
      → (es : List AuditEvent) × (extract_events meta ts body is_stream ≡ (some es, none))
        × Turn meta ts body r.tool_calls r.usage r.model r.thinking r.assistant_text es
  unfolding extract_events apply_usage base_event
  extract_events-anthropic r name parsed full = (
    _,
    rw name (
        ap (anthropic_events (base_event meta ts body)) parsed
        ∙ anthropic_events-full (base_event meta ts body) r full),
    build-Turn _ r.tool_calls
        (with_content-Describes r.thinking r.assistant_text r.model [] r.usage) refl,
  )

  -- An OpenAI response that is parsed and is not blank becomes one event for each tool call, in order,
  -- or a single one without a tool; each with the whole body, the turn's identity, and the same usage,
  -- model and texts, those of the parsed result.
  pub extract_events-open_ai :
      (r : OpenAiResult)
      → meta.upstream_name ≡ codes "openai"
      → parse_open_ai body is_stream ≡ (r, none)
      → is_blank_plain r.model r.assistant_text r.tool_calls ≡ false
      → (es : List AuditEvent) × (extract_events meta ts body is_stream ≡ (some es, none))
        × Turn meta ts body r.tool_calls r.usage r.model [] r.assistant_text es
  unfolding extract_events apply_usage base_event
  extract_events-open_ai r name parsed full = (
    _,
    rw name (
        ap (open_ai_events (base_event meta ts body)) parsed
        ∙ open_ai_events-full (base_event meta ts body) r full),
    build-Turn _ r.tool_calls (with_content-Describes [] r.assistant_text r.model [] r.usage) refl,
  )

  -- An SAP AI Core response that is parsed and is not blank becomes one event for each tool call, in
  -- order, or a single one without a tool; each with the whole body, the turn's identity, and the
  -- same usage, model and texts, those of the parsed result.
  pub extract_events-sap_ai_core :
      (r : SapAiCoreResult)
      → meta.upstream_name ≡ codes "sap-ai-core"
      → parse_sap_ai_core body is_stream meta.req_path meta.resource_group ≡ (r, none)
      → is_blank_plain r.model r.assistant_text r.tool_calls ≡ false
      → (es : List AuditEvent) × (extract_events meta ts body is_stream ≡ (some es, none))
        × Turn meta ts body r.tool_calls r.usage r.model [] r.assistant_text es
  unfolding extract_events apply_usage base_event
  extract_events-sap_ai_core r name parsed full = (
    _,
    rw name (
        ap (sap_ai_core_events (base_event meta ts body)) parsed
        ∙ sap_ai_core_events-full (base_event meta ts body) r full),
    build-Turn _ r.tool_calls
        (with_content-Describes [] r.assistant_text r.model r.resource_group r.usage) refl,
  )

  -- Events that come out of an extraction: there is one, and each describes the response.
  abbrev pub Sound : Extracted → Type 0
  Sound (none, e) = Unit
  Sound (some es, e) = (is_nil es ≡ false) × All (Describes meta ts body) es

  build-not_nil :
      (base : AuditEvent) (calls : List ToolCall) → is_nil (build_tool_events base calls) ≡ false
  unfolding build_tool_events
  build-not_nil base [] = refl
  build-not_nil base (t ∷ calls) = refl

  build-Sound :
      (thinking texts : List Bytes) (model group : Bytes) (u : TokenUsage) (calls : List ToolCall)
      → Sound (
        some (
            build_tool_events
              (apply_usage u (
                let b = base_event meta ts body in
                record b {
                  thinking = thinking;
                  assistant_text = texts;
                  model = model;
                  resource_group = group;
                }))
              calls),
        none,
      )
  build-Sound thinking texts model group u calls =
      let d =
        with_content-Describes {meta = meta} {ts = ts} {body = body} thinking texts model group u in
      (
        build-not_nil _ calls,
        All-build (Describes meta ts body) _ (λ t. Describes-tool_event t d) d calls,
      )

  anthropic_events-Sound :
      (p : AnthropicResult × Option ParseError)
      → Sound (anthropic_events (base_event meta ts body) p)
  unfolding anthropic_events base_event
  anthropic_events-Sound (r, some e) = tt
  anthropic_events-Sound (r, none) =
      elim (Bool-cases (is_blank_result r.model r.thinking r.assistant_text r.tool_calls)) [
        | inl blank ↦ rw blank tt
        | inr full ↦
            rw full (build-Sound r.thinking r.assistant_text r.model [] r.usage r.tool_calls)
      ]

  open_ai_events-Sound :
      (p : OpenAiResult × Option ParseError) → Sound (open_ai_events (base_event meta ts body) p)
  unfolding open_ai_events base_event
  open_ai_events-Sound (r, some e) = tt
  open_ai_events-Sound (r, none) =
      elim (Bool-cases (is_blank_plain r.model r.assistant_text r.tool_calls)) [
        | inl blank ↦ rw blank tt
        | inr full ↦ rw full (build-Sound [] r.assistant_text r.model [] r.usage r.tool_calls)
      ]

  sap_ai_core_events-Sound :
      (p : SapAiCoreResult × Option ParseError)
      → Sound (sap_ai_core_events (base_event meta ts body) p)
  unfolding sap_ai_core_events base_event
  sap_ai_core_events-Sound (r, some e) = tt
  sap_ai_core_events-Sound (r, none) =
      elim (Bool-cases (is_blank_plain r.model r.assistant_text r.tool_calls)) [
        | inl blank ↦ rw blank tt
        | inr full ↦
            rw full (build-Sound [] r.assistant_text r.model r.resource_group r.usage r.tool_calls)
      ]

  pub extract_events-Sound : Sound (extract_events meta ts body is_stream)
  unfolding extract_events
  extract_events-Sound = elim (Bool-cases (eq_bytes meta.upstream_name (codes "anthropic"))) [
    | inl a ↦ rw a (anthropic_events-Sound (parse_anthropic body is_stream))
    | inr not_a ↦ elim (Bool-cases (eq_bytes meta.upstream_name (codes "openai"))) [
      | inl o ↦ rw (not_a, o) (open_ai_events-Sound (parse_open_ai body is_stream))
      | inr not_o ↦ elim (Bool-cases (eq_bytes meta.upstream_name (codes "sap-ai-core"))) [
        | inl s ↦
            rw (not_a, not_o, s)
              (sap_ai_core_events-Sound
                (parse_sap_ai_core body is_stream meta.req_path meta.resource_group))
        | inr not_s ↦ rw (not_a, not_o, not_s) tt
      ]
    ]
  ]
