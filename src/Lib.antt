-- ===== src/Lib.antt =====
-- KernelEye: an agent that watches a server's traffic and blocks addresses, and a backend that
-- scores what the agents report and sends them signed commands.
--
-- How the parts interact: on the agent an event of the eBPF programs passes the aggregator's filters,
-- is counted under its address and judged by the analyzer. A flush scores the window of every
-- address together with its history, lets the auto-blocker act on the scores, and submits the events
-- to the backend, behind the batches that an earlier flush had to buffer. The backend checks the key,
-- scores the events again and stores them; its block manager evaluates the stored scores, decides an
-- enforcement, stores it and signs a command. The hub queues the command on the agent's channel, the
-- gRPC handler streams it, and the agent's client verifies and obeys it. The remediators hold the
-- blocks in ipset and XDP, and the agent reports them to the backend.
--
-- Which file models which part of the repository:
--   Signing (Payload, BlockList): shared/cmdsigning/signing.go. Sign, Verify,
--     BuildCanonicalPayload and BuildBlockListPayload are sign, verify, build_canonical_payload
--     and build_block_list_payload.
--   Commands (Sync, Verify, Replay, Overlap, Authentic): agent/block_command_verify.go and
--     agent/block_command_sync.go; verifyCommand, processCommand, fetchBlockList, SyncBlockList,
--     Reconcile.
--   Hub (Clients): the agents' channels and the dashboard's sockets of
--     backend/internal/api/websocket.go; run_step is a round of Run.
--   Stream: backend/internal/api/block_grpc.go; to_wire is the loop of StreamBlockCommands.
--   Services: backend/internal/services/services.go.
--   BlockManager (Entities, Matrix, Escalates, Active, Lifetime):
--     backend/internal/analysis/block_manager.go.
--   Delivery (Blocks, Unblocks): no code of its own; it composes the backend's end with the
--     agent's.
--   Float: the float64 arithmetic that the scorer and the auto-blocker use, as a parameter.
--   Scoring (Components, Ports, Kind, Score, Bounds): shared/scoring/types.go and scorer.go.
--   Analyzer (Wellformed, Verdicts, Ring): agent/remediation/analyzer.go.
--   AutoBlocker (Guards, Storm): agent/remediation/auto_blocker.go.
--   Remediation (Memory, External, Xdp, Hybrid, Setup, Persist, Cidr): agent/remediation/:
--     ipset_block.go, ipset_state.go, ipset_remediator.go, xdp_block.go, xdp_cleanup.go,
--     xdp_rate.go, xdp_helpers.go, hybrid_remediator.go and types.go.
--   Network (Tracked, Wire): agent/network.go.
--   SafeStats: agent/safemap.go.
--   Aggregator (Ports, Events, Counting, Reconnect, Reports): agent/aggregator.go,
--     aggregator_event.go, aggregator_whitelist.go, aggregator_connect.go and
--     aggregator_report.go; ProcessEvent is process_event.
--   Flush (Snapshot, Send, Retry, Keep): agent/flush.go and flush_proto.go; FlushToAPI is
--     flush_to_api and retryPendingBatches is retry_pending_batches.
--   Buffer (Window): agent/buffer.go; a row of the table is a Row, in the order of created_at.
--   History (Signals): agent/history_store.go.
--   Proto: the messages of proto/kerneleye/v1/ingest.proto.
--   ApiKey (RoundTrip): backend/internal/api/apikey.go.
--   Ingest (Submit, Accept, Agree, Blocked, Register): backend/internal/api/grpc_handlers.go;
--     SubmitTraffic is submit_traffic, ReportBlockedIP is report_blocked_ip. Ingest/Stuck composes
--     SubmitTraffic with the agent's retries.
--   RateLimit (Bounds): backend/internal/api/ratelimit.go.
--   Api (Owned, Auth): backend/internal/api/handlers.go, whitelist.go and auth.go.
--   Worker: backend/internal/analysis/worker.go.
--   Base: shared names, Go strings as bytes, maps as association lists, integers, machine words.
--   Tests: concrete data and a run of each theorem on it.
--
-- State and operations: a struct is a record, a handler a function from the state and its
-- arguments to the new state and its answer. A mutex makes what it spans one step. A handler that
-- holds no lock over its whole run is the function of a run that nothing disturbs, but in two places:
-- Commands/Overlap has the steps of calls that overlap on the nonce tracker, and a flush takes what the
-- events counted meanwhile make of the statistics as functions. The clock, an environment variable, a
-- query's answer and the success of a write or a command are arguments; a clock that a handler reads
-- again is another argument. Times and durations are nanoseconds, on which PostgreSQL's rounding to
-- microseconds is left out. Logging is left out.
--
-- Bounds and fuel: every loop of the source that is modelled runs over a list or a count and is
-- structural recursion, but for the loops of the ipset remediator's Teardown, which ask iptables
-- before each deletion and run on fuel, since nothing bounds them. A channel holds ten
-- commands and the buffer 500 batches, as in the source. Integers wrap where the source's width
-- matters: the signed payloads and the fields of the messages (32 and 64 bits), the duration of a
-- command and the back-off (int64).
--
-- SQL and Redis: a table is a list of rows, and each statement of the source is a function on it;
-- whether a statement succeeds is an argument.
--
-- Parameters: HMAC-SHA256, base64, decimal conversion, strings.TrimSpace and ToLower (Sys, with
-- SysLaws, also for the seconds of a duration as an integer; Keys, with KeysLaws); float64 and the functions of package math (Float, with FloatLaws);
-- the methods of net.IP (Net, with NetLaws); the encoding of package proto (Codec, with CodecLaws);
-- AddDate (Calendar, with CalendarLaws); the validation of a JWT; the commands that are run.
--
-- Not modelled: the code that sqlc generates, the listings and charts of the HTTP handlers, OAuth and
-- refresh tokens, geolocation and e-mail, the dashboard, the eBPF programs and the loading of their
-- maps, start-up, tickers and logging.
pub mod Base
pub mod Signing
pub mod Commands
pub mod Hub
pub mod Stream
pub mod Services
pub mod BlockManager
pub mod Float
pub mod Scoring
pub mod Analyzer
pub mod Remediation
pub mod AutoBlocker
pub mod Network
pub mod SafeStats
pub mod Proto
pub mod Buffer
pub mod Aggregator
pub mod Flush
pub mod ApiKey
pub mod Ingest
pub mod Worker
pub mod Api
pub mod RateLimit
pub mod History
pub mod Delivery
pub mod Tests
