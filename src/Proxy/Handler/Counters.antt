-- ===== src/Proxy/Handler/Counters.antt =====
-- The token counters of internal/proxy/handler.go: NewHandler makes them, and the callback of a
-- response adds to them.
use codesteward_audit_proxy.Base.{
  ℕ, zero, suc, ◌+◌, ◌-◌, ltb, String, ◌≡◌, sym, ap, ◌∙◌, Bool, Option, none, some, List, [], ◌∷◌,
  if◌then◌else◌, All, All-map, arith,
}
use codesteward_audit_proxy.Base.Bytes.{Bytes}
use codesteward_audit_proxy.Base.Int.{ℤ, pos, negsuc, positive}
use codesteward_audit_proxy.Audit.Event.{AuditEvent}
use codesteward_audit_proxy.Parser.Types.{ToolCall, TokenUsage, ParseError}
use codesteward_audit_proxy.Proxy.Http.{Response}
use codesteward_audit_proxy.Proxy.Handler.{RequestMeta, extract_events}
use codesteward_audit_proxy.Proxy.Handler.Events.{Turn, usage_of}
use codesteward_audit_proxy.Proxy.Handler.Transport.{Metrics, metrics_of, on_complete}

-- The sum of two integers.
abbrev pub sum : ℤ → ℤ → ℤ
sum (pos a) (pos b) = pos (a + b)
sum (pos a) (negsuc b) = if ltb b a then pos (a - b - 1) else negsuc (b - a)
sum (negsuc a) (pos b) = if ltb a b then pos (b - a - 1) else negsuc (a - b)
sum (negsuc a) (negsuc b) = negsuc (a + b + 1)

-- An Int64Counter, with its total: Add takes what it is given, also a negative number.
pub record Counter : Type 0 where
  pub name : String
  pub description : String
  pub unit : String
  pub total : ℤ

abbrev pub input_tokens_counter : Counter
input_tokens_counter = record {
  name = "gen_ai.usage.input_tokens";
  description = "Total input/prompt tokens consumed";
  unit = "{token}";
  total = pos 0;
}

abbrev pub output_tokens_counter : Counter
output_tokens_counter = record {
  name = "gen_ai.usage.output_tokens";
  description = "Total output/completion tokens consumed";
  unit = "{token}";
  total = pos 0;
}

abbrev pub count : Option ℤ → Counter → Counter
count none c = c
count (some z) c = record c { total = sum c.total z }

unfoldable pub count_tokens : Option Metrics → Counter × Counter → Counter × Counter
count_tokens none cs = cs
count_tokens (some m) cs = (count m.input_tokens cs.0, count m.output_tokens cs.1)

-- What a parsed number may add to a counter: nothing if it is negative.
abbrev pub amount : ℤ → ℤ
amount (pos n) = pos n
amount (negsuc n) = pos 0

sum-zero : (z : ℤ) → sum z (pos 0) ≡ z
sum-zero (pos n) = ap pos (omega arith)
sum-zero (negsuc n) = ground arith

count-positive :
    (z : ℤ) (c : Counter)
    → (count (if positive z then some z else none) c).total ≡ sum c.total (amount z)
count-positive (pos zero) c = sym (sum-zero c.total)
count-positive (pos (suc n)) c = ground arith
count-positive (negsuc n) c = sym (sum-zero c.total)

-- The counts of the first event.
abbrev CountsOf : List AuditEvent → TokenUsage → Type 0
CountsOf [] u = ⊥
CountsOf (e ∷ es) u = (e.input_tokens ≡ u.input_tokens) × (e.output_tokens ≡ u.output_tokens)

Turn-CountsOf :
    {meta : RequestMeta} {ts : ℕ} {body : Bytes} {calls : List ToolCall} {usage : TokenUsage}
    {model : Bytes} {thinking texts : List Bytes} (es : List AuditEvent)
    → Turn meta ts body calls usage model thinking texts es
    → CountsOf es usage
Turn-CountsOf {calls = []} [] t = let bad = t.calls_in_order in cc
Turn-CountsOf {calls = call ∷ calls} [] t = let bad = t.calls_in_order in cc
Turn-CountsOf (e ∷ es) t =
    let same = t.same_content.0.0 in (ap (λ u. u.input_tokens) same, ap (λ u. u.output_tokens) same)

metrics_of-counted :
    (meta : RequestMeta) (es : List AuditEvent) (usage : TokenUsage) (cs : Counter × Counter)
    → CountsOf es usage
    → ((count_tokens (metrics_of meta es) cs).0.total ≡ sum cs.0.total (amount usage.input_tokens))
      × ((count_tokens (metrics_of meta es) cs).1.total
          ≡ sum cs.1.total (amount usage.output_tokens))
unfolding count_tokens metrics_of
metrics_of-counted meta [] usage cs h = elim h [ ]
metrics_of-counted meta (e ∷ es) usage cs h = (
  count-positive e.input_tokens cs.0 ∙ ap (λ z. sum cs.0.total (amount z)) h.0,
  count-positive e.output_tokens cs.1 ∙ ap (λ z. sum cs.1.total (amount z)) h.1,
)

-- A response whose events make a turn is counted once: the counters, which add what they are given,
-- rise by the parsed numbers of input and output tokens, a negative one left out, however many events,
-- each with these numbers, its tool calls have made.
pub on_complete-counted :
    (error_text : ParseError → Bytes) (has_sink : Bool) (meta : RequestMeta) (ts : ℕ)
    (resp : Response) (body : Bytes) (is_stream : Bool) {calls : List ToolCall} {usage : TokenUsage}
    {model : Bytes} {thinking texts : List Bytes} {es : List AuditEvent} {e : Option ParseError}
    (cs : Counter × Counter)
    → extract_events meta ts body is_stream ≡ (some es, e)
    → Turn meta ts body calls usage model thinking texts es
    → (let after =
          count_tokens (on_complete error_text has_sink meta ts resp body is_stream).1 cs in
        (after.0.total ≡ sum cs.0.total (amount usage.input_tokens))
        × (after.1.total ≡ sum cs.1.total (amount usage.output_tokens))
        × All (λ event. usage_of event ≡ usage) es)
unfolding on_complete
on_complete-counted error_text has_sink meta ts resp body is_stream {usage = usage} {es = es} cs
      extracted t =
    let (input, output) = metrics_of-counted meta es usage cs (Turn-CountsOf es t) in
    (
      rw extracted input,
      rw extracted output,
      All-map _ (λ event. usage_of event ≡ usage) (λ event h. h.0) es t.same_content,
    )
