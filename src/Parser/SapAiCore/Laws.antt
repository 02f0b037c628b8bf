-- ===== src/Parser/SapAiCore/Laws.antt =====
-- The deployment id of a path, and the SAP AI Core result that bears it.
use codesteward_audit_proxy.Base.{
  ℕ, ◌≡◌, refl, ap, ◌∙◌, subst, ◌≢◌, inl, inr, Bool, false, Option, none, some, [], ◌∷◌, ◌++◌,
  arith, ◌==◌, if◌then◌else◌, ==_iff, Bool-cases, Option-cases, ◌>>=◌, is_nil, All,
}
use codesteward_audit_proxy.Base.Bytes.{Bytes, codes, strip_prefix, strip_prefix_sound}
use codesteward_audit_proxy.Parser.OpenAi.{OpenAiResult}
use codesteward_audit_proxy.Parser.OpenAi.Stream.{parse_open_ai}
use codesteward_audit_proxy.Parser.SapAiCore.{
  up_to_slash, deployment_here, deployment_id, is_native_mode, or_model, sap_base,
  parse_sap_ai_core,
}

-- A text with no slash.
abbrev pub NoSlash : Bytes → Type 0
NoSlash = All (λ c. c ≢ b'/')

-- What is found up to the first slash.
abbrev UpToSlash : Bytes → Option Bytes → Type 0
UpToSlash s none = Unit
UpToSlash s (some t) = NoSlash t × ((rest : Bytes) × (s ≡ t ++ b'/' ∷ rest))

UpToSlash-cons :
    (c : ℕ) (s : Bytes) (o : Option Bytes)
    → c ≢ b'/'
    → UpToSlash s o
    → UpToSlash (c ∷ s) (o >>= λ t. some (c ∷ t))
UpToSlash-cons c s none ne h = tt
UpToSlash-cons c s (some t) ne (clean, (rest, e)) = ((ne, clean), (rest, ap (◌∷◌ c) e))

up_to_slash-UpToSlash : (s : Bytes) → UpToSlash s (up_to_slash s)
unfolding up_to_slash
up_to_slash-UpToSlash [] = tt
up_to_slash-UpToSlash (c ∷ s) = elim (Bool-cases (c == b'/')) [
  | inl slash ↦ rw slash (tt, (s, ap (λ d. d ∷ s) ((==_iff c b'/').0 slash)))
  | inr other ↦ rw other (
      UpToSlash-cons c s (up_to_slash s) (λ q. cc ((==_iff c b'/').1 q, other))
        (up_to_slash-UpToSlash s))
]

-- A place in the path `s` where `id` stands between `/deployments/` and the next slash.
pub record IsDeploymentIn (s id : Bytes) : Type 0 where
  pub before : Bytes
  pub behind : Bytes
  pub place : s ≡ before ++ (codes "/deployments/" ++ (id ++ b'/' ∷ behind))
  pub not_empty : is_nil id ≡ false
  pub no_slash : NoSlash id

abbrev Found : Bytes → Option Bytes → Type 0
Found s none = Unit
Found s (some id) = IsDeploymentIn s id

segment-Found :
    (s t : Bytes) (o : Option Bytes)
    → s ≡ codes "/deployments/" ++ t
    → UpToSlash t o
    → Found s (o >>= λ id. if is_nil id then none else some id)
segment-Found s t none e h = tt
segment-Found s t (some []) e h = tt
segment-Found s t (some (c ∷ id)) e (clean, (rest, q)) = record {
  before = [];
  behind = rest;
  place = e ∙ ap (◌++◌ (codes "/deployments/")) q;
  not_empty = refl;
  no_slash = clean;
}

deployment_here-Found : (s : Bytes) → Found s (deployment_here s)
unfolding deployment_here
deployment_here-Found s = elim (Option-cases (strip_prefix (codes "/deployments/") s)) [
  | inl missing ↦ rw missing tt
  | inr (t, e) ↦ rw e (
      segment-Found s t (up_to_slash t) (strip_prefix_sound (codes "/deployments/") s e)
        (up_to_slash-UpToSlash t))
]

Found-cons : (c : ℕ) (s : Bytes) (o : Option Bytes) → Found s o → Found (c ∷ s) o
Found-cons c s none h = tt
Found-cons c s (some id) d = record {
  before = c ∷ d.before;
  behind = d.behind;
  place = ap (◌∷◌ c) d.place;
  not_empty = d.not_empty;
  no_slash = d.no_slash;
}

deployment_id-Found : (s : Bytes) → Found s (deployment_id s)
unfolding deployment_id
deployment_id-Found [] = tt
deployment_id-Found (c ∷ s) = elim (Option-cases (deployment_here (c ∷ s))) [
  | inl missing ↦
      rw (missing, deployment_id) (Found-cons c s (deployment_id s) (deployment_id-Found s))
  | inr (id, e) ↦ rw (e, deployment_id) (subst (Found (c ∷ s)) e (deployment_here-Found (c ∷ s)))
]

-- The deployment id that is found stands in the path between `/deployments/` and a slash; it is not
-- empty and has no slash in it.
pub deployment_id_sound : (s id : Bytes) → deployment_id s ≡ some id → IsDeploymentIn s id
deployment_id_sound s id e = subst (Found s) e (deployment_id-Found s)

up_to_slash-append : (t rest : Bytes) → NoSlash t → up_to_slash (t ++ b'/' ∷ rest) ≡ some t
unfolding up_to_slash
up_to_slash-append [] rest h = refl
up_to_slash-append (c ∷ t) rest h = rw (up_to_slash-append t rest h.1) (ground (arith, h.0))

-- No match begins inside `before`.
abbrev pub NoMatch : Bytes → Bytes → Type 0
NoMatch [] s = Unit
NoMatch (c ∷ before) s = (deployment_here (c ∷ (before ++ s)) ≡ none) × NoMatch before s

-- Where an id that is not empty and has no slash stands between `/deployments/` and a slash, and no
-- match begins before, that id is found.
pub deployment_id-first :
    (before id behind : Bytes)
    → NoMatch before (codes "/deployments/" ++ (id ++ b'/' ∷ behind))
    → is_nil id ≡ false
    → NoSlash id
    → deployment_id (before ++ (codes "/deployments/" ++ (id ++ b'/' ∷ behind))) ≡ some id
unfolding deployment_id
deployment_id-first [] id behind none_before full clean = rw (here, deployment_id)
  where
    here : deployment_here (codes "/deployments/" ++ (id ++ b'/' ∷ behind)) ≡ some id
    here = unfold deployment_here in rw (up_to_slash-append id behind clean) (rw full)
deployment_id-first (c ∷ before) id behind none_before full clean =
    rw (none_before.0, deployment_id)
      (deployment_id-first before id behind none_before.1 full clean)

or_model-full : (id alias : Bytes) → is_nil id ≡ false → or_model id alias ≡ id
or_model-full [] alias full = cc
or_model-full (c ∷ id) alias full = refl

-- A request of the Harmonized API under `/deployments/<id>/`, with an id that is not empty and has no
-- slash, and no match before it: where the OpenAI parser reads the body with no error and finds a model
-- in it, the result is under the deployment id all the same, not under the model of the body, with the
-- texts, the tool calls and the usage that are read and the resource group of the request.
pub parse_sap_ai_core-deployment :
    (body : Bytes) (is_stream : Bool) (before id behind group : Bytes) {r : OpenAiResult}
    → is_native_mode (before ++ (codes "/deployments/" ++ (id ++ b'/' ∷ behind))) ≡ false
    → NoMatch before (codes "/deployments/" ++ (id ++ b'/' ∷ behind))
    → is_nil id ≡ false
    → NoSlash id
    → parse_open_ai body is_stream ≡ (r, none)
    → parse_sap_ai_core body is_stream
        (before ++ (codes "/deployments/" ++ (id ++ b'/' ∷ behind)))
        group
      ≡ (
        record {
          assistant_text = r.assistant_text;
          tool_calls = r.tool_calls;
          model = id;
          resource_group = group;
          usage = r.usage;
        },
        none,
      )
unfolding parse_sap_ai_core sap_base
parse_sap_ai_core-deployment body is_stream before id behind group {r} api first full clean read =
    rw
      (
        api,
        read,
        deployment_id-first before id behind first full clean,
        or_model-full id r.model full,
      )
      refl
