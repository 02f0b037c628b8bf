-- ===== src/Proxy/Serve/Laws.antt =====
-- What the agent and the batchers get of a request, in every case.
use codesteward_audit_proxy.Base.{
  ℕ, ◌≡◌, refl, Bool, true, false, Option, none, some, List, [], ◌∷◌, inl, inr, Bool-cases, is_nil,
  All,
}
use codesteward_audit_proxy.Base.Bytes.{Bytes}
use codesteward_audit_proxy.Base.Int.{eq_ℤ}
use codesteward_audit_proxy.Parser.Types.{ParseError}
use codesteward_audit_proxy.Proxy.Http.{Header, Request, Response}
use codesteward_audit_proxy.Proxy.Router.{rewrite_request}
use codesteward_audit_proxy.Proxy.Handler.{Handler, RequestMeta, director}
use codesteward_audit_proxy.Proxy.Handler.Transport.{
  Emission, to_audit, Exchange, Metrics, request_event, body_bytes, outgoing, finish_exchange,
  round_trip,
}
use codesteward_audit_proxy.Proxy.Handler.Transport.Records.{RecordOf, finish_exchange-records}
use codesteward_audit_proxy.Proxy.ReverseProxy.{forward, is_forwarded, remove_hop_by_hop}
use codesteward_audit_proxy.Proxy.Serve.{
  bad_gateway, Served, switching_protocols, give_answer, serve,
}

module _ (error_text : ParseError → Bytes) (inject : Header → Header)
    (inner : Request → Option Response) (h : Handler) (session_uuid turn_uuid : Bytes) (now ts : ℕ)
    (client_ip : Option Bytes) (req : Request) where
  abbrev pub meta_of : RequestMeta
  meta_of = (director h session_uuid turn_uuid now req).1

  -- The request that reaches the upstream.
  abbrev pub sent_of : Request
  sent_of =
      outgoing inject (forward client_ip req.header (director h session_uuid turn_uuid now req).0)

  abbrev pub accepted_by_proxy : Bool
  accepted_by_proxy = is_forwarded (director h session_uuid turn_uuid now req).0.header

  abbrev pub request_emission : Emission
  request_emission = to_audit (request_event h meta_of (body_bytes req.body))

  -- The ways in which serving a request ends.
  pub data ServeOutcome : Served → Type 0 where
    refused :
        accepted_by_proxy ≡ false
        → ServeOutcome (record { answer = bad_gateway; emissions = []; metrics = none })
    failed :
        accepted_by_proxy ≡ true
        → inner sent_of ≡ none
        → ServeOutcome
            (record { answer = bad_gateway; emissions = request_emission ∷ []; metrics = none })
    switched :
        {resp : Response}
        → accepted_by_proxy ≡ true
        → inner sent_of ≡ some resp
        → eq_ℤ resp.status_code switching_protocols ≡ true
        → ServeOutcome
            (record { answer = bad_gateway; emissions = request_emission ∷ []; metrics = none })
    answered :
        {resp : Response} {records : List Emission} {metrics : Option Metrics}
        → accepted_by_proxy ≡ true
        → inner sent_of ≡ some resp
        → eq_ℤ resp.status_code switching_protocols ≡ false
        → is_nil records ≡ false
        → All (RecordOf meta_of ts resp resp.body) records
        → ServeOutcome (record {
          answer = record resp { header = remove_hop_by_hop resp.header };
          emissions = request_emission ∷ records;
          metrics = metrics;
        })

  abbrev exchange_on : Option Response → Exchange
  exchange_on o = finish_exchange error_text h (some meta_of) ts sent_of (request_emission ∷ []) o

  give_answer-ServeOutcome :
      (o : Option Response)
      → accepted_by_proxy ≡ true
      → inner sent_of ≡ o
      → h.unprocessed ≡ true
      → ServeOutcome (give_answer (exchange_on o) (exchange_on o).response)
  unfolding give_answer finish_exchange
  give_answer-ServeOutcome none ok e sink = failed ok e
  give_answer-ServeOutcome (some resp) ok e sink =
      elim (Bool-cases (eq_ℤ resp.status_code switching_protocols)) [
        | inl switching ↦ rw switching (switched ok e switching)
        | inr plain ↦
            let r =
              finish_exchange-records error_text h meta_of ts sent_of (request_emission ∷ []) resp
                sink in
            rw plain (answered ok e plain r.0 r.1)
      ]

  -- With a batcher for unprocessed events, serving a request ends in one of four ways. A request for
  -- an unprintable upgrade is answered with 502 and leaves nothing. If the upstream fails, or switches
  -- protocols, the answer is 502 and exactly the request event is left. Otherwise the agent gets the
  -- upstream's status and body as they are, and its header less the hop-by-hop fields, and beside
  -- the request event there is at least one record, each of them a record of that response.
  pub serve-ServeOutcome :
      h.unprocessed ≡ true
      → ServeOutcome (serve error_text inject inner h session_uuid turn_uuid now ts client_ip req)
  unfolding serve round_trip director rewrite_request forward
  serve-ServeOutcome sink = elim (Bool-cases accepted_by_proxy) [
    | inr not_printable ↦ rw not_printable (refused not_printable)
    | inl ok ↦ rw ok (give_answer-ServeOutcome (inner sent_of) ok refl sink)
  ]

  -- The emissions of a request that the upstream answers.
  pub serve-answered :
      {resp : Response}
      → h.unprocessed ≡ true
      → accepted_by_proxy ≡ true
      → inner sent_of ≡ some resp
      → eq_ℤ resp.status_code switching_protocols ≡ false
      → (records : List Emission) × ((serve error_text inject inner h session_uuid turn_uuid now ts
            client_ip req).emissions
          ≡ request_emission ∷ records)
        × (is_nil records ≡ false)
        × All (RecordOf meta_of ts resp resp.body) records
  unfolding serve round_trip director rewrite_request forward
  serve-answered {resp} sink ok e plain =
      let r =
        finish_exchange-records error_text h meta_of ts sent_of (request_emission ∷ []) resp sink in
      ((exchange_on (some resp)).response_emissions, rw (ok, e) (given plain), r.0, r.1)
    where
      given :
          eq_ℤ resp.status_code switching_protocols ≡ false
          → (give_answer (exchange_on (some resp)) (exchange_on (some resp)).response).emissions
            ≡ request_emission ∷ (exchange_on (some resp)).response_emissions
      given p = unfold give_answer finish_exchange in rw p
