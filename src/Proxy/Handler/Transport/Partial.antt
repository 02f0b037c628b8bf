-- ===== src/Proxy/Handler/Transport/Partial.antt =====
-- RoundTrip with a caller that need not read the response to its end: its callback behind the tap of
-- internal/proxy/stream.go.
use codesteward_audit_proxy.Base.{
  ℕ, ◌≡◌, sym, ap, ◌∙◌, subst, inl, inr, Bool, true, false, some, List, [], ◌∷◌, ◌++◌, append-nil,
  Bool-cases, is_nil, All, concat,
}
use codesteward_audit_proxy.Base.Bytes.{Bytes}
use codesteward_audit_proxy.Parser.Types.{ParseError}
use codesteward_audit_proxy.Proxy.Http.{Request, Response}
use codesteward_audit_proxy.Proxy.Tap.{TapReadCloser, tap_body, Use, use_body}
use codesteward_audit_proxy.Proxy.Tap.Laws.{Faithful, completions, tap_body-Faithful}
use codesteward_audit_proxy.Proxy.Handler.{Handler, RequestMeta}
use codesteward_audit_proxy.Proxy.Handler.Transport.{Emission, on_complete, finish_exchange}
use codesteward_audit_proxy.Proxy.Handler.Transport.Records.{RecordOf, on_complete-records}

module _ (error_text : ParseError → Bytes) where
  -- What the callback emits, over its runs.
  unfoldable pub callback_emissions :
      Bool → RequestMeta → ℕ → Response → List (Bytes × Bool) → List Emission
  unfolding on_complete
  callback_emissions has_sink meta ts resp [] = []
  callback_emissions has_sink meta ts resp ((body, is_stream) ∷ runs) =
      (on_complete error_text has_sink meta ts resp body is_stream).0
      ++ callback_emissions has_sink meta ts resp runs

  module _ (meta : RequestMeta) (ts : ℕ) (resp : Response) where
    -- What is recorded of a response whose body comes in these pieces, when the caller has got so far.
    pub data PartRecorded (pieces : List Bytes) (t : TapReadCloser) : List Emission → Type 0 where
      unclosed : t.closed ≡ false → PartRecorded pieces t []
      recorded :
          {records : List Emission}
          → t.closed ≡ true
          → t.forwarded ++ concat t.incoming ≡ concat pieces
          → is_nil records ≡ false
          → All (RecordOf meta ts resp t.forwarded) records
          → PartRecorded pieces t records

    callback-once :
        (has_sink : Bool) (body : Bytes) (is_stream : Bool)
        → callback_emissions has_sink meta ts resp (completions true body is_stream)
          ≡ (on_complete error_text has_sink meta ts resp body is_stream).0
    unfolding callback_emissions
    callback-once has_sink body is_stream = append-nil _

    Faithful-PartRecorded :
        (pieces : List Bytes) {is_stream : Bool} (t : TapReadCloser)
        → Faithful (concat pieces) is_stream t
        → PartRecorded pieces t (callback_emissions true meta ts resp t.completed)
    unfolding callback_emissions
    Faithful-PartRecorded pieces {is_stream} t f = elim (Bool-cases t.closed) [
      | inr open_yet ↦
          subst (λ c. PartRecorded pieces t (callback_emissions true meta ts resp c))
            (sym (f.once ∙ ap (λ c. completions c t.forwarded is_stream) open_yet))
            (unclosed open_yet)
      | inl shut ↦
          subst (λ c. PartRecorded pieces t (callback_emissions true meta ts resp c))
            (sym (f.once ∙ ap (λ c. completions c t.forwarded is_stream) shut))
            (subst (PartRecorded pieces t) (sym (callback-once true t.forwarded is_stream)) (
              let r = on_complete-records error_text meta ts resp t.forwarded is_stream in
              recorded shut f.split r.0 r.1))
    ]

    -- With a batcher for unprocessed events, and however the caller reads and closes the body of a
    -- response: before Close nothing is recorded of it. Once the body is closed, also where the caller
    -- has left a rest of it unread, there is at least one record, and each record holds exactly the
    -- bytes that the caller got, which with the rest are the body, and the turn's identity.
    pub use_body-PartRecorded :
        (pieces : List Bytes) (us : List Use)
        → PartRecorded pieces (use_body (tap_body resp.header pieces) us) (
            callback_emissions true meta ts resp
              (use_body (tap_body resp.header pieces) us).completed)
    use_body-PartRecorded pieces us =
        Faithful-PartRecorded pieces (use_body (tap_body resp.header pieces) us)
          (tap_body-Faithful resp.header pieces us)

    read_all :
        (got : Bytes) (rest : List Bytes) {body : Bytes}
        → rest ≡ []
        → got ++ concat rest ≡ body
        → got ≡ body
    read_all got rest none_left e =
        sym (append-nil got) ∙ ap (λ r. got ++ concat r) (sym none_left) ∙ e

    -- A caller that reads everything and closes leaves the emissions of the exchange.
    pub use_body-finish_exchange :
        (h : Handler) (req : Request) (requests : List Emission) (pieces : List Bytes)
        (us : List Use)
        → resp.body ≡ concat pieces
        → (use_body (tap_body resp.header pieces) us).closed ≡ true
        → (use_body (tap_body resp.header pieces) us).incoming ≡ []
        → callback_emissions h.unprocessed meta ts resp
            (use_body (tap_body resp.header pieces) us).completed
          ≡ (finish_exchange error_text h
              (some meta)
              ts
              req
              requests
              (some resp)).response_emissions
    unfolding finish_exchange tap_body on_complete
    use_body-finish_exchange h req requests pieces us whole shut all_read =
        let t = use_body (tap_body resp.header pieces) us in
        let is_stream = (tap_body resp.header pieces).is_stream in
        let f = tap_body-Faithful resp.header pieces us in
        ap (callback_emissions h.unprocessed meta ts resp)
          (f.once ∙ ap (λ c. completions c t.forwarded is_stream) shut)
        ∙ callback-once h.unprocessed t.forwarded is_stream
        ∙ ap (λ b. (on_complete error_text h.unprocessed meta ts resp b is_stream).0)
            (read_all t.forwarded t.incoming all_read f.split ∙ sym whole)
