-- ===== src/Flush.antt =====
-- agent/flush.go and agent/flush_proto.go: sending the statistics to the backend. What the fields of an
-- event are made of is here and in Snapshot; sending, retrying and buffering are in Send.
pub mod Snapshot
pub mod Send
pub mod Retry
pub mod Keep
use kerneleye.Base.{
  ℕ, ◌+◌, ◌-◌, ◌*◌, ◌/◌, ◌^◌, ◌≤◌, ◌≡◌, Bool, true, false, ◌&&◌, ◌||◌, List, [], ◌∷◌, length, ltb,
  leb, ◌==◌, if◌then◌else◌, arith,
}
use kerneleye.Base.Int.{ℤ}
use kerneleye.Scoring.{ThreatLevel, ThreatType, Direction}
use kerneleye.Proto.{TrafficResponse, WireLevel, WireType, WireDirection}
use kerneleye.Aggregator.{dir_outbound}

-- What `time.AddDate` gives a year back and a year ahead.
pub record Calendar : Type 0 where
  pub year_ago : ℕ → ℕ
  pub year_ahead : ℕ → ℕ

pub record CalendarLaws (c : Calendar) : Type 0 where
  pub ago : (now : ℕ) → c.year_ago now ≤ now
  pub ahead : (now : ℕ) → now ≤ c.year_ahead now

-- The first test of `sanitizeStatsWindow`, on either end; 0 is Go's zero time.
unfoldable pub plausible : Calendar → ℕ → ℕ → ℕ
plausible c now t = if t == 0 || ltb t (c.year_ago now) || ltb (c.year_ahead now) t then now else t

unfoldable pub sanitize_stats_window : Calendar → ℕ → ℕ → ℕ → ℕ × ℕ
unfolding plausible
sanitize_stats_window c first last now =
    let first' = plausible c now first in
    let last' = plausible c now last in
    if ltb last' first' then (first', first') else (first', last')

-- `isFullyAccepted`, without its reason; a nil response is an error of the call here.
unfoldable pub is_fully_accepted : TrafficResponse → ℕ → Bool
is_fully_accepted resp submitted = resp.success && resp.events_processed == submitted

unfoldable pub to_proto_threat_level : ThreatLevel → WireLevel
to_proto_threat_level ThreatLevel.malicious = WireLevel.malicious
to_proto_threat_level ThreatLevel.suspicious = WireLevel.suspicious
to_proto_threat_level ThreatLevel.normal = WireLevel.normal

unfoldable pub to_proto_threat_type : ThreatType → WireType
to_proto_threat_type ThreatType.port_scan = WireType.port_scan
to_proto_threat_type ThreatType.service_abuse = WireType.service_abuse
to_proto_threat_type ThreatType.syn_flood = WireType.syn_flood
to_proto_threat_type ThreatType.failed_handshake = WireType.failed_handshake
to_proto_threat_type ThreatType.connection_burst = WireType.connection_burst
to_proto_threat_type ThreatType.no_threat = WireType.no_threat

unfoldable pub get_scoring_direction : ℕ → Direction
get_scoring_direction dir = if dir == dir_outbound then Direction.outbound else Direction.inbound

-- `pb.Direction(stats.Direction + 1)`, at the two values that the probe gives.
unfoldable pub wire_direction : ℕ → WireDirection
wire_direction dir = if dir == 0 then WireDirection.inbound else WireDirection.outbound

-- The window's length, and 0 where it makes no sense.
unfoldable pub connection_duration_ms : ℕ → ℕ → ℕ
connection_duration_ms first last =
    let ms = (last - first) / 10 ^ 6 in
    if ltb last first || ltb (24 * 60 * 60 * 1000) ms then 0 else ms

-- Both ends lie within a year of the clock, the start before the end.
pub sanitize_stats_window_sound :
    (c : Calendar) (laws : CalendarLaws c) (first last now : ℕ)
    → (c.year_ago now ≤ (sanitize_stats_window c first last now).0)
      × ((sanitize_stats_window c first last now).0 ≤ (sanitize_stats_window c first last now).1)
      × ((sanitize_stats_window c first last now).1 ≤ c.year_ahead now)
unfolding sanitize_stats_window plausible
sanitize_stats_window_sound c laws first last now = ground (arith, laws.ago now, laws.ahead now)
