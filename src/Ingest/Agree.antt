-- ===== src/Ingest/Agree.antt =====
-- What the agent puts into an event (agent/flush_proto.go) is what the backend reads out of it.
use kerneleye.Base.{
  ℕ, ◌%◌, ◌^◌, ◌≤◌, ◌<◌, ◌≡◌, refl, sym, ◌∙◌, ◌&&◌, Option, none, some, List, [], ◌∷◌, length, take,
  ltb, ◌==◌, if◌then◌else◌, arith,
}
use kerneleye.Base.Str.{Str}
use kerneleye.Float.{Float}
use kerneleye.Scoring.{ThreatLevel, ThreatType, ThreatScore, IpMetrics}
use kerneleye.SafeStats.{IpStats}
use kerneleye.Aggregator.{EventStats}
use kerneleye.Flush.{
  Calendar, CalendarLaws, wire_direction, get_scoring_direction, plausible, sanitize_stats_window,
  to_proto_threat_level, to_proto_threat_type,
}
use kerneleye.Proto.{ConnectionEvent}
use kerneleye.Flush.Snapshot.{
  HistorySignals, build_metrics, with_signals, scored_metrics, build_event, event_window,
}
use kerneleye.Ingest.{
  scoring_threat_level, scoring_threat_type, normalize_window, in_year, build_metrics_from_event,
  scoring_direction,
}

-- A level or a type that the agent sends is the one that the backend reads.
pub threat-roundtrip :
    (level : ThreatLevel) (kind : ThreatType)
    → (scoring_threat_level (to_proto_threat_level level) ≡ level)
      × (scoring_threat_type (to_proto_threat_type kind) ≡ kind)
unfolding scoring_threat_level scoring_threat_type to_proto_threat_level to_proto_threat_type
threat-roundtrip level kind = ground arith

-- The agent's and the backend's clean-up of a window are the same function.
pub normalize_window-sanitize :
    (c : Calendar) (now first last : ℕ)
    → normalize_window c now first last ≡ sanitize_stats_window c first last now
unfolding normalize_window in_year sanitize_stats_window plausible
normalize_window-sanitize c now first last = ground arith

normalize_idem :
    (c : Calendar) (laws : CalendarLaws c) (now first last : ℕ)
    → let w = sanitize_stats_window c first last now in normalize_window c now w.0 w.1 ≡ w
unfolding normalize_window in_year sanitize_stats_window plausible
normalize_idem c laws now first last = ground (arith, laws.ago now, laws.ahead now)

-- Counts that fit their fields, and a direction that the probe gives.
pub record Fits (s : EventStats) : Type 0 where
  pub syn : s.syn_count < 2 ^ 32
  pub ack : s.ack_count < 2 ^ 32
  pub failed : s.failed_handshakes < 2 ^ 32
  pub ports : length s.unique_ports < 2 ^ 32
  pub direction : s.direction ≤ 1

-- Of the scorer's inputs, those that count events and ports, the window and the direction.
abbrev pub SameCounts : {f : Float} → IpMetrics f → IpMetrics f → Type 0
SameCounts m n =
    (m.syn_count ≡ n.syn_count)
    × (m.ack_count ≡ n.ack_count)
    × (m.failed_handshakes ≡ n.failed_handshakes)
    × (m.unique_ports ≡ n.unique_ports)
    × (m.total_connections ≡ n.total_connections)
    × (m.established_connections ≡ n.established_connections)
    × (m.window_start ≡ n.window_start)
    × (m.window_end ≡ n.window_end)
    × (m.direction ≡ n.direction)

read_ports :
    (ports : List ℕ)
    → length ports < 2 ^ 32
    → (if length ports % 2 ^ 32 == 0 && ltb 0 (length (take 10 ports))
        then length (take 10 ports)
        else length ports % 2 ^ 32)
      ≡ length ports
read_ports [] fits = refl
read_ports (p ∷ ports) fits = ground arith

read_direction :
    (dir : ℕ) → dir ≤ 1 → scoring_direction (wire_direction dir) ≡ get_scoring_direction dir
unfolding scoring_direction wire_direction get_scoring_direction
read_direction dir le = ground arith

metrics_window :
    (f : Float) (c : Calendar) (now : ℕ) (e : ConnectionEvent)
    → ((build_metrics_from_event f c now e).window_start
        ≡ (normalize_window c now e.first_seen e.last_seen).0)
      × ((build_metrics_from_event f c now e).window_end
          ≡ (normalize_window c now e.first_seen e.last_seen).1)
unfolding build_metrics_from_event
metrics_window f c now e = (refl, refl)

module _ (f : Float) (c : Calendar) (laws : CalendarLaws c) (now : ℕ) (s : IpStats EventStats) where
  abbrev pub sent : Option HistorySignals → ThreatScore f → Str → ConnectionEvent
  sent h score ip =
      build_event f c now (some (record { score = score; metrics = scored_metrics f c now h s })) ip
        s

  sent_window :
      (h : Option HistorySignals) (score : ThreatScore f) (ip : Str)
      → ((sent h score ip).first_seen
          ≡ (sanitize_stats_window c s.first_seen s.stats.last_seen now).0)
        × ((sent h score ip).last_seen
            ≡ (sanitize_stats_window c s.first_seen s.stats.last_seen now).1)
  unfolding build_event event_window scored_metrics with_signals
  sent_window none score ip = ground arith
  sent_window (some h) score ip = ground arith

  scored_window :
      (h : Option HistorySignals)
      → ((scored_metrics f c now h s).window_start
          ≡ (sanitize_stats_window c s.first_seen s.stats.last_seen now).0)
        × ((scored_metrics f c now h s).window_end
            ≡ (sanitize_stats_window c s.first_seen s.stats.last_seen now).1)
  unfolding scored_metrics with_signals
  scored_window none = (refl, refl)
  scored_window (some h) = (refl, refl)

  read_window :
      (h : Option HistorySignals) (score : ThreatScore f) (ip : Str)
      → let m = build_metrics_from_event f c now (sent h score ip) in
        (m.window_start ≡ (scored_metrics f c now h s).window_start)
        × (m.window_end ≡ (scored_metrics f c now h s).window_end)
  read_window h score ip =
      let q = metrics_window f c now (sent h score ip) in
      let e = sent_window h score ip in
      let w = scored_window h in
      (
        q.0 ∙ rw (e.0, e.1, normalize_idem c laws now s.first_seen s.stats.last_seen) (sym w.0),
        q.1 ∙ rw (e.0, e.1, normalize_idem c laws now s.first_seen s.stats.last_seen) (sym w.1),
      )

  -- The metrics that the backend computes from an event have the counts, the window and the direction of
  -- those that the agent scored, where both clocks show the same time and the counts fit their fields.
  pub build_metrics_from_event-agrees :
      (h : Option HistorySignals) (score : ThreatScore f) (ip : Str)
      → Fits s.stats
      → SameCounts (build_metrics_from_event f c now (sent h score ip)) (scored_metrics f c now h s)
  unfolding build_metrics_from_event build_event scored_metrics build_metrics with_signals
  build_metrics_from_event-agrees none score ip fits = (
    omega (arith, fits.syn),
    omega (arith, fits.ack),
    omega (arith, fits.failed),
    read_ports s.stats.unique_ports fits.ports,
    omega (arith, fits.syn, fits.ack),
    omega (arith, fits.syn, fits.ack),
    (read_window none score ip).0,
    (read_window none score ip).1,
    read_direction s.stats.direction fits.direction,
  )
  build_metrics_from_event-agrees (some h) score ip fits = (
    omega (arith, fits.syn),
    omega (arith, fits.ack),
    omega (arith, fits.failed),
    read_ports s.stats.unique_ports fits.ports,
    omega (arith, fits.syn, fits.ack),
    omega (arith, fits.syn, fits.ack),
    (read_window (some h) score ip).0,
    (read_window (some h) score ip).1,
    read_direction s.stats.direction fits.direction,
  )
