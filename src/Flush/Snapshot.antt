-- ===== src/Flush/Snapshot.antt =====
-- agent/flush_proto.go: an address's statistics as metrics for the scorer, and as an event for the backend.
use kerneleye.Base.{
  Bool, ℕ, ◌+◌, ◌-◌, ◌%◌, ◌^◌, ◌&&◌, Option, none, some, List, [], ◌∷◌, length, take, ltb, ◌==◌,
  if◌then◌else◌,
}
use kerneleye.Base.Str.{Str}
use kerneleye.Base.Int.{ℤ, pos, pos_part, ltb_ℤ}
use kerneleye.Base.Dict.{Dict, lookup}
use kerneleye.Float.{Float}
use kerneleye.Scoring.{IpMetrics, ThreatScore, ThreatScorer, ThreatLevel, ThreatType}
use kerneleye.Scoring.Score.{calculate_score}
use kerneleye.SafeStats.{IpStats}
use kerneleye.Network.{get_protocol_from_number}
use kerneleye.Proto.{ConnectionEvent}
use kerneleye.Aggregator.{EventStats}
use kerneleye.Aggregator.Ports.{busiest}
use kerneleye.Flush.{
  Calendar, sanitize_stats_window, to_proto_threat_level, to_proto_threat_type,
  get_scoring_direction, wire_direction, connection_duration_ms,
}

-- The primary port of the metrics and its hits: by the hits, and by the counts where these name none.
unfoldable pub primary_hits : EventStats → ℕ × ℕ
unfolding busiest
primary_hits s =
    let (port, hits) = busiest 0 0 s.port_hits in
    let (port', count) = busiest 0 0 s.port_counts in
    if port == 0 && ltb 0 (length s.port_counts)
    then (port', if hits == 0 && ltb 0 port' then count else hits)
    else (port, hits)

unfoldable pub build_metrics : (f : Float) → IpStats EventStats → IpMetrics f
unfolding primary_hits get_scoring_direction
build_metrics f s = record {
  syn_count = s.stats.syn_count;
  ack_count = s.stats.ack_count;
  rst_count = 0;
  failed_handshakes = s.stats.failed_handshakes;
  unique_ports = length s.stats.unique_ports;
  total_connections = s.stats.syn_count + s.stats.ack_count;
  window_start = s.first_seen;
  window_end = s.stats.last_seen;
  established_connections = s.stats.ack_count - s.stats.syn_count;
  previous_score = pos 0;
  last_seen = 0;
  service_ports = [];
  max_port_hits = (primary_hits s.stats).1;
  primary_port = (primary_hits s.stats).0;
  cumulative_unique_ports = 0;
  cumulative_window_hours = f.of_int (pos 0);
  direction = get_scoring_direction s.stats.direction;
}

-- `HistorySignals`
pub record HistorySignals : Type 0 where
  pub max_threat_score : ℤ
  pub max_port_hits : ℕ
  pub total_connections : ℕ
  pub bucket_count : ℕ

-- The history's maxima go into the metrics; `none` is no history, or one that cannot be read.
unfoldable pub with_signals : (f : Float) → Option HistorySignals → IpMetrics f → IpMetrics f
with_signals f none m = m
with_signals f (some h) m = record m {
  previous_score =
      if ltb_ℤ m.previous_score h.max_threat_score then h.max_threat_score else m.previous_score;
  max_port_hits = if ltb m.max_port_hits h.max_port_hits then h.max_port_hits else m.max_port_hits;
}

-- `scoredMetrics`
pub record ScoredMetrics (f : Float) : Type 0 where
  pub score : ThreatScore f
  pub metrics : IpMetrics f

-- The metrics of one address: the statistics, the sanitised window, the history.
unfoldable pub scored_metrics :
    (f : Float) → Calendar → ℕ → Option HistorySignals → IpStats EventStats → IpMetrics f
unfolding build_metrics with_signals sanitize_stats_window
scored_metrics f c now h s =
    let w = sanitize_stats_window c s.first_seen s.stats.last_seen now in
    with_signals f h (record (build_metrics f s) { window_start = w.0; window_end = w.1 })

-- `calculateScoreContexts` with a scorer, as far as the scores go; `signals` is `LoadSignals`.
unfoldable pub calculate_score_contexts :
    (f : Float)
    → ThreatScorer f
    → Calendar
    → ℕ
    → (Str → ℕ → Option HistorySignals)
    → Dict (IpStats EventStats)
    → Dict (ScoredMetrics f)
unfolding scored_metrics
calculate_score_contexts f ts c now signals [] = []
calculate_score_contexts f ts c now signals ((ip, s) ∷ snapshot) =
    let m = scored_metrics f c now (signals ip s.stats.direction) s in
    (ip, record { score = calculate_score f ts now m; metrics = m })
    ∷ calculate_score_contexts f ts c now signals snapshot

-- A call of `PersistBucket`.
pub record BucketWrite (f : Float) : Type 0 where
  pub ip : Str
  pub direction : ℕ
  pub protocol : ℕ
  pub process_name : Str
  pub metrics : IpMetrics f
  pub score : ThreatScore f

-- The calls of `PersistBucket` in `calculateScoreContexts`; `has_history` is whether there is a store.
unfoldable pub bucket_writes :
    (f : Float) → Bool → Dict (ScoredMetrics f) → Dict (IpStats EventStats) → List (BucketWrite f)
bucket_writes f has_history scored [] = []
bucket_writes f has_history scored ((ip, s) ∷ snapshot) =
    let rest = bucket_writes f has_history scored snapshot in
    elim (lookup ip scored) [
      | none ↦ rest
      | some m ↦
          if has_history
          then record {
            ip = ip;
            direction = s.stats.direction;
            protocol = s.stats.protocol;
            process_name = s.stats.process_name;
            metrics = m.metrics;
            score = m.score;
          }
            ∷ rest
          else rest
    ]

-- The window of an event: that of the metrics, where there are any.
unfoldable pub event_window :
    (f : Float) → Calendar → ℕ → Option (ScoredMetrics f) → IpStats EventStats → ℕ × ℕ
unfolding sanitize_stats_window
event_window f c now none s = sanitize_stats_window c s.first_seen s.stats.last_seen now
event_window f c now (some m) s =
    let w = sanitize_stats_window c s.first_seen s.stats.last_seen now in
    (
      if m.metrics.window_start == 0 then w.0 else m.metrics.window_start,
      if m.metrics.window_end == 0 then w.1 else m.metrics.window_end,
    )

unfoldable pub wire_score : (f : Float) → Option (ScoredMetrics f) → ℕ
wire_score f none = 0
wire_score f (some m) = pos_part m.score.score % 2 ^ 32

unfoldable pub level_of : (f : Float) → Option (ScoredMetrics f) → ThreatLevel
level_of f none = ThreatLevel.normal
level_of f (some m) = m.score.level

unfoldable pub kind_of : (f : Float) → Option (ScoredMetrics f) → ThreatType
kind_of f none = ThreatType.no_threat
kind_of f (some m) = m.score.kind

-- The event of one address.
unfoldable pub build_event :
    (f : Float)
    → Calendar
    → ℕ
    → Option (ScoredMetrics f)
    → Str
    → IpStats EventStats
    → ConnectionEvent
unfolding event_window wire_score level_of kind_of wire_direction connection_duration_ms busiest
build_event f c now scored ip s =
    let w = event_window f c now scored s in
    record {
      source_ip = if s.stats.direction == 0 then ip else s.stats.local_ip;
      destination_ip = if s.stats.direction == 0 then s.stats.local_ip else ip;
      destination_port = (busiest 0 0 s.stats.port_counts).0;
      protocol = get_protocol_from_number s.stats.protocol;
      syn_count = s.stats.syn_count % 2 ^ 32;
      ack_count = s.stats.ack_count % 2 ^ 32;
      failed_handshakes = s.stats.failed_handshakes % 2 ^ 32;
      bytes_in = s.stats.bytes_in;
      bytes_out = s.stats.bytes_out;
      first_seen = w.0;
      last_seen = w.1;
      unique_ports_count = length s.stats.unique_ports % 2 ^ 32;
      ports_accessed = take 10 s.stats.unique_ports;
      direction = wire_direction s.stats.direction;
      threat_score = wire_score f scored;
      threat_level = to_proto_threat_level (level_of f scored);
      threat_type = to_proto_threat_type (kind_of f scored);
      icmp_packets_in = s.stats.icmp_packets_in;
      icmp_packets_out = s.stats.icmp_packets_out;
      connection_duration_ms = connection_duration_ms w.0 w.1;
      port_bytes_in = take 10 s.stats.port_bytes_in;
      port_bytes_out = take 10 s.stats.port_bytes_out;
      process_name = s.stats.process_name;
    }

unfoldable pub build_proto_events_from_snapshot :
    (f : Float)
    → Calendar
    → ℕ
    → Dict (ScoredMetrics f)
    → Dict (IpStats EventStats)
    → List ConnectionEvent
unfolding build_event
build_proto_events_from_snapshot f c now scored [] = []
build_proto_events_from_snapshot f c now scored ((ip, s) ∷ snapshot) =
    build_event f c now (lookup ip scored) ip s
    ∷ build_proto_events_from_snapshot f c now scored snapshot
