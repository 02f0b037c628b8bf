-- ===== src/Proxy/Handler/Transport/Records.antt =====
-- What an exchange leaves in the batchers.
use codesteward_audit_proxy.Base.{
  ℕ, ◌≡◌, refl, ◌∙◌, Bool, true, false, not, Option, none, some, List, [], ◌∷◌, map, is_some,
  is_nil, All,
}
use codesteward_audit_proxy.Base.Bytes.{Bytes, codes}
use codesteward_audit_proxy.Audit.Event.{AuditEvent}
use codesteward_audit_proxy.Parser.Types.{ParseError}
use codesteward_audit_proxy.Parser.Request.{parse_request, request_capture_disabled}
use codesteward_audit_proxy.Proxy.Http.{header_get, Header, Request, Response}
use codesteward_audit_proxy.Proxy.Handler.{Handler, RequestMeta, Extracted}
use codesteward_audit_proxy.Proxy.Handler.Events.{Describes}
use codesteward_audit_proxy.Proxy.Handler.Extraction.{Sound, extract_events-Sound}
use codesteward_audit_proxy.Proxy.Handler.Transport.{
  Emission, to_audit, to_unprocessed, request_event, unprocessed_event, emissions, on_complete,
  outgoing, request_emissions_of, finish_exchange, round_trip, body_bytes,
}

-- A record of the response `resp` with the body `body`: an audit event that describes it, or an
-- unprocessed event with the whole of it.
abbrev pub RecordOf : RequestMeta → ℕ → Response → Bytes → Emission → Type 0
RecordOf meta ts resp body (to_audit e) = Describes meta ts body e
RecordOf meta ts resp body (to_unprocessed u) =
    (u.raw ≡ body)
    × (u.session_id ≡ meta.session_id)
    × (u.turn_id ≡ meta.turn_id)
    × (u.path ≡ meta.req_path)
    × (u.status_code ≡ resp.status_code)
    × (u.content_type ≡ header_get resp.header "Content-Type")
    × (u.direction ≡ codes "response")

All-to_audit :
    (meta : RequestMeta) (ts : ℕ) (resp : Response) (body : Bytes) (es : List AuditEvent)
    → All (Describes meta ts body) es
    → All (RecordOf meta ts resp body) (map to_audit es)
All-to_audit meta ts resp body [] h = tt
All-to_audit meta ts resp body (e ∷ es) h = (h.0, All-to_audit meta ts resp body es h.1)

is_nil-map : (es : List AuditEvent) → is_nil (map to_audit es) ≡ is_nil es
is_nil-map [] = refl
is_nil-map (e ∷ es) = refl

module _ (error_text : ParseError → Bytes) where
  emissions-RecordOf :
      (meta : RequestMeta) (ts : ℕ) (resp : Response) (body : Bytes) (x : Extracted)
      → (is_stream : Bool) → Sound meta ts body is_stream x
      → (let out =
            emissions error_text true meta ts resp.status_code
              (header_get resp.header "Content-Type")
              body
              x in
          (is_nil out ≡ false) × All (RecordOf meta ts resp body) out)
  unfolding emissions unprocessed_event
  emissions-RecordOf meta ts resp body (some es, e) is_stream h =
      (is_nil-map es ∙ h.0, All-to_audit meta ts resp body es h.1)
  emissions-RecordOf meta ts resp body (none, e) is_stream h =
      (refl, ((refl, refl, refl, refl, refl, refl, refl), tt))

  -- With a batcher for unprocessed events no response is lost: whatever its body, one record at least
  -- reaches a batcher, and every record holds the whole body and the identity of the turn; an
  -- unprocessed one also holds the path, the status and the content type.
  pub on_complete-records :
      (meta : RequestMeta) (ts : ℕ) (resp : Response) (body : Bytes) (is_stream : Bool)
      → (let out = (on_complete error_text true meta ts resp body is_stream).0 in
          (is_nil out ≡ false) × All (RecordOf meta ts resp body) out)
  unfolding on_complete
  on_complete-records meta ts resp body is_stream =
      emissions-RecordOf meta ts resp body _ is_stream (extract_events-Sound meta ts body is_stream)

  -- The records of an answer that the caller reads to its end and closes.
  pub finish_exchange-records :
      (h : Handler) (meta : RequestMeta) (ts : ℕ) (req : Request) (requests : List Emission)
      (resp : Response)
      → h.unprocessed ≡ true
      → (let out =
            (finish_exchange error_text h
              (some meta)
              ts
              req
              requests
              (some resp)).response_emissions in
          (is_nil out ≡ false) × All (RecordOf meta ts resp resp.body) out)
  unfolding finish_exchange
  finish_exchange-records h meta ts req requests resp sink =
      rw sink (on_complete-records meta ts resp resp.body _)

  -- An exchange with metadata puts exactly one request event on its way, whatever the upstream does.
  -- An answer is given to the caller as it is, and with a batcher for unprocessed events it is
  -- recorded; if the upstream fails there is no answer and nothing more is recorded.
  pub round_trip-records :
      (inject : Header → Header) (inner : Request → Option Response) (h : Handler)
      (meta : RequestMeta) (ts : ℕ) (req : Request)
      → h.unprocessed ≡ true
      → (let x = round_trip error_text inject inner h (some meta) ts req in
          (x.request_emissions ≡ to_audit (request_event h meta (body_bytes req.body)) ∷ [])
          × (x.sent ≡ outgoing inject req)
          × (x.response ≡ inner (outgoing inject req))
          × (is_nil x.response_emissions ≡ not (is_some (inner (outgoing inject req)))))
  unfolding round_trip
  round_trip-records inject inner h meta ts req sink = finish (inner (outgoing inject req))
    where
      finish :
          (answer : Option Response)
          → (let x =
                finish_exchange error_text h
                  (some meta)
                  ts
                  (outgoing inject req)
                  (request_emissions_of h (some meta) (body_bytes req.body))
                  answer in
              (x.request_emissions ≡ to_audit (request_event h meta (body_bytes req.body)) ∷ [])
              × (x.sent ≡ outgoing inject req)
              × (x.response ≡ answer)
              × (is_nil x.response_emissions ≡ not (is_some answer)))
      finish none = unfold finish_exchange in (refl, refl, refl, refl)
      finish (some resp) =
          unfold finish_exchange in
          (
            refl,
            refl,
            refl,
            (finish_exchange-records h meta ts (outgoing inject req)
                (request_emissions_of h (some meta) (body_bytes req.body)) resp sink).0,
          )

-- With capture switched off a request event says nothing of the body: two requests that differ only
-- in their bodies leave the same event, marked as not captured, with the placeholder and no messages.
pub request_event-private :
    (h : Handler) (meta : RequestMeta) (b c : Bytes)
    → h.capture_requests ≡ false
    → (request_event h meta b ≡ request_event h meta c)
      × ((request_event h meta b).raw ≡ request_capture_disabled)
      × ((request_event h meta b).user_messages ≡ [])
      × ((request_event h meta b).request_captured ≡ false)
unfolding request_event parse_request
request_event-private h meta b c off = rw off (refl, refl, refl, refl)
