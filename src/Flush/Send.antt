-- ===== src/Flush/Send.antt =====
-- agent/flush.go: `FlushToAPI`, `bufferEvents` and `retryPendingBatches`. Events go on being counted while a
-- flush runs: what they make of the statistics are functions of the `Flusher`.
use kerneleye.Base.{
  ℕ, ◌+◌, Bool, true, false, ◌||◌, Option, none, some, List, [], ◌∷◌, ◌++◌, length, ◌==◌,
  if◌then◌else◌,
}
use kerneleye.Base.Str.{Str, str}
use kerneleye.Base.Int.{ℤ}
use kerneleye.Base.Dict.{Dict}
use kerneleye.Float.{Float}
use kerneleye.Scoring.{ThreatScorer}
use kerneleye.SafeStats.{SafeStats, IpStats, clear}
use kerneleye.AutoBlocker
use kerneleye.AutoBlocker.{AutoBlocker, Deed, process_score}
use kerneleye.Analyzer.{put_port}
use kerneleye.Proto.{ConnectionEvent, TrafficBatch, Reply, replied, failed}
use kerneleye.Buffer.{
  BufferDb, Codec, Statements, PendingBatch, save, load_all, delete, contains_any,
}
use kerneleye.Aggregator.{Aggregator, EventStats, Texts, is_whitelisted_ip_string}
use kerneleye.Flush.{Calendar, is_fully_accepted}
use kerneleye.Flush.Snapshot.{
  BucketWrite, bucket_writes, HistorySignals, ScoredMetrics, calculate_score_contexts,
  build_proto_events_from_snapshot,
}

-- What a call of `SubmitTraffic` gave; `none` is no client.
unfoldable pub accepts : Option Reply → ℕ → Bool
unfolding is_fully_accepted
accepts none submitted = false
accepts (some (failed msg)) submitted = false
accepts (some (replied resp)) submitted = is_fully_accepted resp submitted

-- Whether it makes the agent reconnect.
unfoldable pub reconnects : Option Reply → Bool
reconnects none = true
reconnects (some (failed msg)) = true
reconnects (some (replied resp)) = false

-- `sent_ids` when the loop ended, the batches that were submitted, and whether the loop went through.
pub record Retried : Type 0 where
  pub sent_ids : List ℕ
  pub submitted : List ℕ
  pub complete : Bool
  pub reconnect : Bool

-- The loop of `retryPendingBatches` from its call number `i` on; `submit` answers call by call.
unfoldable pub retry_loop : (ℕ → TrafficBatch → Option Reply) → ℕ → List PendingBatch → Retried
unfolding accepts reconnects
retry_loop submit i [] = record {
  sent_ids = [];
  submitted = [];
  complete = true;
  reconnect = false;
}
retry_loop submit i (p ∷ ps) =
    let rest = retry_loop submit (i + 1) ps in
    if accepts (submit i p.batch) (length p.batch.events)
    then record rest { sent_ids = p.id ∷ rest.sent_ids; submitted = p.id ∷ rest.submitted }
    else record {
      sent_ids = [];
      submitted = p.id ∷ [];
      complete = false;
      reconnect = reconnects (submit i p.batch);
    }

-- The buffer's answers in one flush.
pub record Disk : Type 0 where
  pub codec : Codec
  pub reads : Bool
  pub deletes : ℕ → Bool
  pub commits : Bool
  pub statements : Statements
  pub seconds : ℕ

-- The batches that were sent are deleted only after the loop went through.
unfoldable pub after_retry : Disk → Retried → BufferDb → BufferDb
after_retry d r b = if r.complete then (delete d.deletes d.commits r.sent_ids b).0 else b

-- `retryPendingBatches`
unfoldable pub retry_pending_batches :
    Disk → (ℕ → TrafficBatch → Option Reply) → BufferDb → BufferDb
unfolding retry_loop after_retry
retry_pending_batches d submit b = elim (load_all d.codec d.reads d.seconds b) [
  | none ↦ b
  | some pending ↦ after_retry d (retry_loop submit 0 pending) b
]

-- Whether the retry makes the agent reconnect.
unfoldable pub retry_reconnects : Disk → (ℕ → TrafficBatch → Option Reply) → Option BufferDb → Bool
unfolding retry_loop
retry_reconnects d submit none = false
retry_reconnects d submit (some b) = elim (load_all d.codec d.reads d.seconds b) [
  | none ↦ false
  | some pending ↦ (retry_loop submit 0 pending).reconnect
]

-- The fields of `Aggregator` that a flush changes.
pub record Sender : Type 0 where
  pub stats : SafeStats EventStats
  pub buffer : Option BufferDb

-- `bufferEvents`: the statistics are cleared if the batch is on disk.
unfoldable pub buffer_events : Disk → Str → Sender → List ConnectionEvent → Sender
buffer_events d key s events = elim s.buffer [
  | none ↦ s
  | some b ↦
      let saved = save d.codec d.statements d.seconds b key events in
      elim saved.1 [
        | none ↦ record { stats = (clear s.stats).0; buffer = some saved.0 }
        | some e ↦ record s { buffer = some saved.0 }
      ]
]

abbrev pub flushed_batch : Str → List ConnectionEvent → TrafficBatch
flushed_batch key events = record {
  api_key = key;
  events = events;
  total_events = length events;
  aggregation_window_seconds = 10;
}

-- The end of `FlushToAPI`: what the answer to the batch does.
unfoldable pub deliver : Disk → Str → Option Reply → Sender → List ConnectionEvent → Sender
unfolding accepts buffer_events
deliver d key reply s events =
    if accepts reply (length events)
    then record s { stats = (clear s.stats).0 }
    else buffer_events d key s events

-- Whether the agent ends: the backend's word that the server is gone.
unfoldable pub terminates : Option Reply → Bool
terminates none = false
terminates (some (failed msg)) =
    contains_any msg (str "Server not active" ∷ str "PermissionDenied" ∷ [])
terminates (some (replied resp)) = false

-- The eBPF maps of counters, by address and by port.
pub record Counters : Type 0 where
  pub bytes : Str → Option (ℕ × ℕ)
  pub icmp : Str → Option (ℕ × ℕ)
  pub port_bytes : Str → ℕ → Option (ℕ × ℕ)

unfoldable pub read_bytes : Counters → Str → EventStats → EventStats
read_bytes c ip s = elim (c.bytes ip) [
  | none ↦ s
  | some (n, m) ↦ record s { bytes_in = n; bytes_out = m }
]

unfoldable pub read_icmp : Counters → Str → EventStats → EventStats
read_icmp c ip s = elim (c.icmp ip) [
  | none ↦ s
  | some (n, m) ↦ record s { icmp_packets_in = n; icmp_packets_out = m }
]

unfoldable pub read_port : Counters → Str → ℕ → EventStats → EventStats
read_port c ip port s = elim (c.port_bytes ip port) [
  | none ↦ s
  | some (n, m) ↦ record s {
    port_bytes_in = put_port port n s.port_bytes_in;
    port_bytes_out = put_port port m s.port_bytes_out;
  }
]

unfoldable pub read_ports : Counters → Str → List ℕ → EventStats → EventStats
unfolding read_port
read_ports c ip [] s = s
read_ports c ip (port ∷ ports) s = read_ports c ip ports (read_port c ip port s)

-- `ForEachMutable` with the body that reads the counters.
unfoldable pub read_counters : Counters → Dict (IpStats EventStats) → Dict (IpStats EventStats)
unfolding read_bytes read_icmp read_ports
read_counters c [] = []
read_counters c ((ip, s) ∷ m) =
    let t = read_icmp c ip (read_bytes c ip s.stats) in
    (ip, record s { stats = read_ports c ip t.unique_ports t }) ∷ read_counters c m

-- What a flush works with, but for the state: scorer, calendar, history, counters, remediator, disk,
-- backend. `submit` answers the batch of this flush, `retry` those of the buffer. `until_snapshot` is what
-- the events make of the statistics from the reading of the counters to the snapshot, `until_sent` from
-- there until the statistics are cleared or left.
pub record Flusher (f : Float) : Type 0 where
  pub scorer : ThreatScorer f
  pub calendar : Calendar
  pub now : ℕ
  pub clock : ℤ
  pub has_history : Bool
  pub signals : Str → ℕ → Option HistorySignals
  pub counters : Counters
  pub remediator : AutoBlocker.Remediator
  pub texts : Texts
  pub disk : Disk
  pub retry : ℕ → TrafficBatch → Option Reply
  pub submit : TrafficBatch → Option Reply
  pub api_key : Str
  pub until_snapshot : SafeStats EventStats → SafeStats EventStats
  pub until_sent : SafeStats EventStats → SafeStats EventStats

-- The auto-blocker's work on the scores; whitelisted addresses are passed over.
unfoldable pub process_scores :
    (f : Float)
    → Flusher f
    → Aggregator
    → AutoBlocker f
    → Dict (ScoredMetrics f)
    → AutoBlocker f × List Deed
unfolding is_whitelisted_ip_string
process_scores f w a ab [] = (ab, [])
process_scores f w a ab ((ip, m) ∷ scored) = elim (is_whitelisted_ip_string w.texts a ip) [
  | true ↦ process_scores f w a ab scored
  | false ↦
      let v = process_score f w.remediator ab w.clock ip m.score in
      let rest = process_scores f w a v.state scored in (rest.0, v.deeds ++ rest.1)
]

-- What a flush leaves and what it did: the deeds of the auto-blocker, the writes into the history, the
-- events of its batch, and whether the agent reconnects or ends.
pub record Flushed (f : Float) : Type 0 where
  pub stats : SafeStats EventStats
  pub buffer : Option BufferDb
  pub blocker : AutoBlocker f
  pub deeds : List Deed
  pub events : List ConnectionEvent
  pub persisted : List (BucketWrite f)
  pub reconnect : Bool
  pub exits : Bool

-- From the retry on, with statistics that are not empty.
unfoldable pub flush_stats :
    (f : Float) → Flusher f → Aggregator → Option BufferDb → AutoBlocker f → Flushed f
unfolding deliver process_scores read_counters bucket_writes reconnects terminates
flush_stats f w a buffer ab =
    let stats =
      w.until_snapshot (record a.stats { items = read_counters w.counters a.stats.items }) in
    let snapshot = stats.items in
    let scored = calculate_score_contexts f w.scorer w.calendar w.now w.signals snapshot in
    let events = build_proto_events_from_snapshot f w.calendar w.now scored snapshot in
    let blocked = process_scores f w a ab scored in
    let reply = w.submit (flushed_batch w.api_key events) in
    let sent =
      deliver w.disk w.api_key reply (record { stats = w.until_sent stats; buffer = buffer })
        events in
    record {
      stats = sent.stats;
      buffer = sent.buffer;
      blocker = blocked.0;
      deeds = blocked.1;
      events = events;
      persisted = bucket_writes f w.has_history scored snapshot;
      reconnect = reconnects reply;
      exits = terminates reply;
    }

-- `FlushToAPI` with an auto-blocker and a scorer.
unfoldable pub flush_to_api :
    (f : Float) → Flusher f → Aggregator → Option BufferDb → AutoBlocker f → Flushed f
unfolding retry_pending_batches retry_reconnects flush_stats
flush_to_api f w a buffer ab =
    let buffer' : Option BufferDb = elim buffer [
      | none ↦ none
      | some b ↦ some (retry_pending_batches w.disk w.retry b)
    ] in
    let retried = retry_reconnects w.disk w.retry buffer in
    if length a.stats.items == 0
    then record {
      stats = a.stats;
      buffer = buffer';
      blocker = ab;
      deeds = [];
      events = [];
      persisted = [];
      reconnect = retried;
      exits = false;
    }
    else let flushed = flush_stats f w a buffer' ab in
      record flushed { reconnect = retried || flushed.reconnect }
