-- ===== src/Lib.antt =====
-- The audit proxy (cmd/proxy, internal/): an HTTP proxy in front of the APIs of language models. It
-- forwards a request to its upstream, copies the response on its way to the caller, parses both and
-- writes audit events to ClickHouse in batches.
--
-- The parts, from the request to the table:
--   Config (internal/config/config.go): Load over an environment.
--   Proxy.Router (internal/proxy/router.go): DetectUpstream is detect_upstream, one function for each
--     of its tests, and RewriteRequest is rewrite_request.
--   Proxy.Handler (internal/proxy/handler.go): director, detect_agent, extract_events. Its child
--     Transport is RoundTrip: outgoing is the request that is forwarded, request_event the event of
--     the request, on_complete the callback for the response, round_trip the whole exchange, and
--     Serving joins it with the director. Partial is its callback behind the tap, for a caller that
--     need not read to the end. Handler.Counters are the counters of NewHandler.
--   Proxy.ReverseProxy: what httputil.ReverseProxy does with headers. Proxy.Serve is NewHandler,
--     ServeHTTP and errorHandler: the reverse proxy around the director and the audit transport.
--   Proxy.Tap (internal/proxy/stream.go): the tee and the pipe of TapBody, read and closed at will.
--   Proxy.Http: header maps, requests and responses, as far as the proxy reads and writes them.
--   Parser.Anthropic, Parser.OpenAi, Parser.SapAiCore, Parser.Request (internal/parser): the parsers,
--     full and streaming; Parser.Sse is the loop header that the streaming parsers share, and
--     Parser.Sse.Framing a text made of events for it. Parser.Anthropic.Written,
--     Parser.OpenAi.Written and Parser.Request.Written are the bodies of full responses and of
--     requests: the members that the parsers read, in one order, with any other members between them.
--   Json: what encoding/json does with the bodies: the scanner as a state machine over bytes,
--     unquoting, and decoding into records with case-insensitive keys. Json.Scan.Grammar is the JSON
--     grammar, as documents that can be written and have a value, for statements about whole bodies;
--     Json.Extended adds members that no field of a struct belongs to, and Json.Quote writes a text.
--   Audit.Event, Audit.Scrubber, Audit.Batcher, Audit.Writer (internal/audit): the events, the
--     scrubber, the batchers and the ClickHouse writer. Audit.Delivery joins the last two, Audit.Outage
--     with a driver that changes between flushes, and Audit.Stopping the calls of Add with Stop.
--     Audit.Unprocessed is UnprocessedBatcher, whose code repeats Batcher's and does the same;
--     Audit.Batcher.Channel is NewChannelBatcher, and Audit.Writer.Bounds compares the cells with
--     their columns.
--   Schema (migrations): the SQL files and migrate.sh.
--   Telemetry (internal/telemetry/otel.go): Setup and the function that it returns.
--   System: the handler's calls of Add, and from a served request to the rows of the tables.
--   Main (cmd/proxy/main.go, internal/proxy/transport.go): start makes the parts from the configuration.
--     Main.Boot is main from Load to the server, with NewWriter of Audit.Writer.Open; Main.Boot.Laws
--     goes from the environment to the tables. Main.Server is the mux with the health check, over
--     Proxy.ServeMux, which is http.ServeMux as it is used here. Main.Outcome and Main.Boot.Outcome list the ways in
--     which a start ends. Main.Shutdown is the end of main beside the goroutines of the batchers.
--   Tests: runs at concrete inputs.
--
-- How the state is modelled: a batcher is a record with the channel, the batch and the history of what
-- was accepted and handed to flush, and `step` is one action of one thread; Reach is any interleaving
-- of Add, Stop and the goroutine. A streaming parser is a fold over lines with its accumulator as a
-- record. A tapped body is a record, and its use a list of reads and closes. Texts are lists of bytes.
--
-- Numbers are native. Go's int is an integer with no bound here: a JSON number outside 64 bits is
-- refused by the decoder as Go refuses it, and the conversions to unsigned columns are written modulo
-- their width. The capacity of a batcher's channel is bounded by what `make` allows on 64 bits, so that a
-- size whose tenfold would wrap is refused. Memory that runs out below that bound is left out. All loops are structural recursion, on the list of bytes, lines, events or patterns, so
-- that no fuel is needed; the nesting of JSON is bounded by Go's limit of 10000.
--
-- Parameters: url.Parse, package regexp, time.ParseDuration, the output of git, the trace propagator,
-- the inner RoundTrip, the texts of errors, the OpenTelemetry SDK, and the ClickHouse driver (its DSNs,
-- which calls it refuses, and whether it opens).
--
-- Not modelled: spans and logs, the interfaces EventAdder and UnprocessedAdder apart from the batchers
-- that fill them, trailers and informational answers of the reverse proxy, CONNECT requests and percent
-- escapes in the mux, and the defaults and engines of the tables. A flush is one step, so that one that
-- is under way when the connection is closed counts as written or not as a whole. ASCII letters are
-- folded and ASCII spaces trimmed as Go does it; other spaces of Unicode are not trimmed.
pub mod Base
pub mod Json
pub mod Audit
pub mod Config
pub mod Proxy
pub mod Parser
pub mod Telemetry
pub mod Schema
pub mod System
pub mod Main
pub mod Tests
