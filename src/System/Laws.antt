-- ===== src/System/Laws.antt =====
-- From a served request to the rows of the two tables.
use codesteward_audit_proxy.Base.{
  ℕ, ◌+◌, ◌≤◌, ◌≡◌, refl, sym, ap, subst, true, false, Option, some, List, [], ◌∷◌, ◌++◌, map,
  length, is_nil, All,
}
use mathlib.Core.List.{Memᴰ}
use codesteward_audit_proxy.Base.Bytes.{Bytes}
use codesteward_audit_proxy.Base.Int.{ℤ, eq_ℤ}
use codesteward_audit_proxy.Audit.Event.{AuditEvent, UnprocessedEvent}
use codesteward_audit_proxy.Audit.Batcher.{running, Batcher, new_batcher, Reach}
use codesteward_audit_proxy.Audit.Stopping.{add_all, shut_down, add_all-stored}
use codesteward_audit_proxy.Audit.Writer.{
  Driver, Row, audit_query, audit_row, unprocessed_query, unprocessed_row, write_batch,
  write_unprocessed_batch, flush_batch, flush_unprocessed, flush_all,
}
use codesteward_audit_proxy.Audit.Writer.Laws.{AlwaysAccepts}
use codesteward_audit_proxy.Parser.Types.{ParseError}
use codesteward_audit_proxy.Proxy.Http.{Header, Request, Response}
use codesteward_audit_proxy.Proxy.Handler.{Handler, RequestMeta}
use codesteward_audit_proxy.Proxy.Handler.Events.{Describes}
use codesteward_audit_proxy.Proxy.Handler.Transport.{
  Emission, to_audit, to_unprocessed, request_event, body_bytes,
}
use codesteward_audit_proxy.Proxy.Handler.Transport.Records.{RecordOf}
use codesteward_audit_proxy.Proxy.Serve.{switching_protocols, serve}
use codesteward_audit_proxy.Proxy.Serve.Laws.{meta_of, sent_of, accepted_by_proxy, serve-answered}
use codesteward_audit_proxy.System.{Sinks, emit, emit_all, audits, unprocessed_of}

emit_all-split :
    (xs : List Emission) (s : Sinks)
    → emit_all xs s ≡ record {
      batcher = add_all (audits xs) s.batcher;
      unprocessed = add_all (unprocessed_of xs) s.unprocessed;
    }
unfolding emit_all emit add_all
emit_all-split [] s = refl
emit_all-split (to_audit e ∷ xs) s = emit_all-split xs (emit (to_audit e) s)
emit_all-split (to_unprocessed u ∷ xs) s = emit_all-split xs (emit (to_unprocessed u) s)

-- Both batchers as NewBatcher made them and the threads left them, neither stopped nor returned, with
-- room for these emissions; and a driver that accepts every call.
pub record Ready (size interval : ℤ) (driver : Driver) (out : List Emission) (s : Sinks)
    : Type 0 where
  pub made : Batcher AuditEvent
  pub unprocessed_made : Batcher UnprocessedEvent
  pub most : ℕ
  pub unprocessed_most : ℕ
  pub new_made : new_batcher most size interval ≡ some made
  pub new_unprocessed : new_batcher unprocessed_most size interval ≡ some unprocessed_made
  pub reached : Reach made s.batcher
  pub unprocessed_reached : Reach unprocessed_made s.unprocessed
  pub active : s.batcher.phase ≡ running
  pub unprocessed_active : s.unprocessed.phase ≡ running
  pub not_stopped : s.batcher.done ≡ false
  pub unprocessed_not_stopped : s.unprocessed.done ≡ false
  pub room : length s.batcher.ch + length (audits out) ≤ s.batcher.capacity
  pub unprocessed_room :
      length s.unprocessed.ch + length (unprocessed_of out) ≤ s.unprocessed.capacity
  pub accepts : AlwaysAccepts driver audit_row
  pub unprocessed_accepts : AlwaysAccepts driver unprocessed_row

-- The two tables that a shutdown leaves: these rows.
pub record Stored (driver : Driver) (db : Bytes) (s : Sinks) (rows unprocessed_rows : List Row)
    : Type 0 where
  pub batches : List (List AuditEvent)
  pub unprocessed_batches : List (List UnprocessedEvent)
  pub shut : shut_down s.batcher ≡ some batches
  pub unprocessed_shut : shut_down s.unprocessed ≡ some unprocessed_batches
  pub table : flush_all (flush_batch driver db) [] batches ≡ rows
  pub unprocessed_table :
      flush_all (flush_unprocessed driver db) [] unprocessed_batches ≡ unprocessed_rows

-- Emissions that find room in both batchers are all stored by a shutdown, each in the table of its
-- kind and in order, behind what was accepted before, if the driver accepts every call.
pub emit_all-Stored :
    (size interval : ℤ) (driver : Driver) (db : Bytes) (out : List Emission) (s : Sinks)
    → Ready size interval driver out s
    → Stored driver db
        (emit_all out s)
        (map audit_row (s.batcher.accepted ++ audits out))
        (map unprocessed_row (s.unprocessed.accepted ++ unprocessed_of out))
unfolding flush_batch flush_unprocessed write_batch write_unprocessed_batch
emit_all-Stored size interval driver db out s r =
    let (hs, shut, table) =
      add_all-stored r.most size interval driver audit_row (audit_query db) s.batcher (audits out)
        r.new_made r.reached r.active r.not_stopped r.room r.accepts in
    let (us, ushut, utable) =
      add_all-stored r.unprocessed_most size interval driver unprocessed_row (unprocessed_query db)
        s.unprocessed (unprocessed_of out) r.new_unprocessed r.unprocessed_reached
        r.unprocessed_active r.unprocessed_not_stopped r.unprocessed_room r.unprocessed_accepts in
    subst
      (λ t.
        Stored driver db t (map audit_row (s.batcher.accepted ++ audits out))
          (map unprocessed_row (s.unprocessed.accepted ++ unprocessed_of out)))
      (sym (emit_all-split out s))
      (record {
        batches = hs;
        unprocessed_batches = us;
        shut = shut;
        unprocessed_shut = ushut;
        table = table;
        unprocessed_table = utable;
      })

Memᴰ-map : {A B : Type 0} (f : A → B) {x : A} {xs : List A} → Memᴰ x xs → Memᴰ (f x) (map f xs)
Memᴰ-map f (Memᴰ.head e) = Memᴰ.head (ap f e)
Memᴰ-map f (Memᴰ.tail m) = Memᴰ.tail (Memᴰ-map f m)

Memᴰ-append : {A : Type 0} (xs : List A) {x : A} {ys : List A} → Memᴰ x ys → Memᴰ x (xs ++ ys)
Memᴰ-append [] m = m
Memᴰ-append (y ∷ xs) m = Memᴰ.tail (Memᴰ-append xs m)

-- A row of the response is in one of the tables.
pub data IsRecorded (meta : RequestMeta) (ts : ℕ) (resp : Response)
    (rows unprocessed_rows : List Row) : Type 0 where
  as_event :
      (e : AuditEvent)
      → Describes meta ts resp.body e
      → Memᴰ (audit_row e) rows
      → IsRecorded meta ts resp rows unprocessed_rows
  as_unprocessed :
      (u : UnprocessedEvent)
      → RecordOf meta ts resp resp.body (to_unprocessed u)
      → Memᴰ (unprocessed_row u) unprocessed_rows
      → IsRecorded meta ts resp rows unprocessed_rows

IsRecorded-records :
    (meta : RequestMeta) (ts : ℕ) (resp : Response) (records : List Emission)
    (before : List AuditEvent) (first : AuditEvent) (before_unprocessed : List UnprocessedEvent)
    → is_nil records ≡ false
    → All (RecordOf meta ts resp resp.body) records
    → IsRecorded meta ts resp
        (map audit_row (before ++ (first ∷ audits records)))
        (map unprocessed_row (before_unprocessed ++ unprocessed_of records))
IsRecorded-records meta ts resp [] before first bu n all = cc
IsRecorded-records meta ts resp (to_audit e ∷ xs) before first bu n all =
    as_event e all.0 (Memᴰ-map audit_row (Memᴰ-append before (Memᴰ.tail (Memᴰ.head refl))))
IsRecorded-records meta ts resp (to_unprocessed u ∷ xs) before first bu n all =
    as_unprocessed u all.0 (Memᴰ-map unprocessed_row (Memᴰ-append bu (Memᴰ.head refl)))

module _ (error_text : ParseError → Bytes) (inject : Header → Header)
    (inner : Request → Option Response) (h : Handler) (session_uuid turn_uuid : Bytes) (now ts : ℕ)
    (client_ip : Option Bytes) (req : Request) where
  abbrev pub emissions_of : List Emission
  emissions_of =
      (serve error_text inject inner h session_uuid turn_uuid now ts client_ip req).emissions

  abbrev pub meta : RequestMeta
  meta = meta_of error_text inject inner h session_uuid turn_uuid now ts client_ip req

  -- A request that the proxy forwards and the upstream answers, without a switch of protocols, is on
  -- record once both batchers are shut down: the table of audit events has the row of the request, and
  -- one of the two tables has a row with the whole response. It holds where the batchers have room
  -- for the emissions and the driver accepts every call, whatever was accepted before.
  pub serve-Stored :
      (size interval : ℤ) (driver : Driver) (db : Bytes) (s : Sinks) {resp : Response}
      → h.unprocessed ≡ true
      → accepted_by_proxy error_text inject inner h session_uuid turn_uuid now ts client_ip req
        ≡ true
      → inner (sent_of error_text inject inner h session_uuid turn_uuid now ts client_ip req)
        ≡ some resp
      → eq_ℤ resp.status_code switching_protocols ≡ false
      → Ready size interval driver emissions_of s
      → (rows unprocessed_rows : List Row) × Stored driver db
          (emit_all emissions_of s)
          rows
          unprocessed_rows
        × Memᴰ (audit_row (request_event h meta (body_bytes req.body))) rows
        × IsRecorded meta ts resp rows unprocessed_rows
  serve-Stored size interval driver db s {resp} sink ok e plain ready =
      let (records, emitted, not_nil, all) =
        serve-answered error_text inject inner h session_uuid turn_uuid now ts client_ip req sink ok
          e plain in
      (
        map audit_row (s.batcher.accepted ++ audits emissions_of),
        map unprocessed_row (s.unprocessed.accepted ++ unprocessed_of emissions_of),
        emit_all-Stored size interval driver db emissions_of s ready,
        rw emitted (Memᴰ-map audit_row (Memᴰ-append s.batcher.accepted (Memᴰ.head refl))),
        rw emitted (
            IsRecorded-records meta ts resp records s.batcher.accepted _ s.unprocessed.accepted
              not_nil all),
      )
