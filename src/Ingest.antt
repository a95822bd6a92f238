-- ===== src/Ingest.antt =====
-- backend/internal/api/grpc_handlers.go: what the backend makes of the agents' traffic. The database, the
-- geolocation and netip.ParseAddr are parameters; what the dashboard is told of an event is left out.
pub mod Submit
pub mod Accept
pub mod Agree
pub mod Stuck
pub mod Blocked
pub mod Register
use kerneleye.Base.{
  ℕ, ◌+◌, ◌-◌, ◌^◌, Bool, true, false, not, ◌&&◌, ◌||◌, Option, none, some, List, [], ◌∷◌, length,
  take, ltb, leb, ◌==◌, if◌then◌else◌,
}
use kerneleye.Base.Str.{Str, str}
use kerneleye.Base.Int.{ℤ, pos, negsuc}
use kerneleye.Float.{Float, num}
use kerneleye.Scoring.{IpMetrics, ThreatScore, ThreatLevel, ThreatType, Direction}
use kerneleye.Network.{Protocol}
use kerneleye.Proto.{ConnectionEvent, WireDirection, WireLevel, WireType}
use kerneleye.Services.{resolve_service}
use kerneleye.Flush.{Calendar}

-- `scoringDirection`
unfoldable pub scoring_direction : WireDirection → Direction
scoring_direction WireDirection.outbound = Direction.outbound
scoring_direction WireDirection.inbound = Direction.inbound
scoring_direction WireDirection.unspecified = Direction.unknown

unfoldable pub direction_label : WireDirection → Str
direction_label WireDirection.outbound = str "outbound"
direction_label WireDirection.inbound = str "inbound"
direction_label WireDirection.unspecified = str "inbound"

unfoldable pub scoring_threat_level : WireLevel → ThreatLevel
scoring_threat_level WireLevel.malicious = ThreatLevel.malicious
scoring_threat_level WireLevel.suspicious = ThreatLevel.suspicious
scoring_threat_level WireLevel.normal = ThreatLevel.normal

unfoldable pub scoring_threat_type : WireType → ThreatType
scoring_threat_type WireType.port_scan = ThreatType.port_scan
scoring_threat_type WireType.service_abuse = ThreatType.service_abuse
scoring_threat_type WireType.syn_flood = ThreatType.syn_flood
scoring_threat_type WireType.failed_handshake = ThreatType.failed_handshake
scoring_threat_type WireType.connection_burst = ThreatType.connection_burst
scoring_threat_type WireType.no_threat = ThreatType.no_threat

unfoldable pub protocol_to_string : Protocol → Str
protocol_to_string Protocol.tcp = str "TCP"
protocol_to_string Protocol.udp = str "UDP"
protocol_to_string Protocol.icmp = str "ICMP"
protocol_to_string Protocol.unknown = str "UNKNOWN"

-- The printable ASCII bytes of a name: its other code points have no byte in that range.
unfoldable pub printable : Str → Str
printable [] = []
printable (c ∷ s) = let rest = printable s in if leb 32 c && ltb c 127 then c ∷ rest else rest

-- `sanitizeProcessName`; its loop ends at the fifteenth byte.
unfoldable pub sanitize_process_name : Str → Str
unfolding printable
sanitize_process_name name = take 15 (printable name)

unfoldable pub resolve_service_name : Str → ℕ → Protocol → Str
unfolding protocol_to_string
resolve_service_name process port proto = resolve_service process port (protocol_to_string proto)

unfoldable pub in_year : Calendar → ℕ → ℕ → Bool
in_year c now t = not (t == 0) && leb (c.year_ago now) t && leb t (c.year_ahead now)

-- `normalizeWindow` at the time `now`
unfoldable pub normalize_window : Calendar → ℕ → ℕ → ℕ → ℕ × ℕ
unfolding in_year
normalize_window c now start end =
    let start' = if in_year c now start then start else now in
    let end' = if in_year c now end then end else now in
    (start', if ltb end' start' then start' else end')

-- `maxPortHits` of `buildMetricsFromEvent`
unfoldable pub most_hits : ℕ → ℕ → ℕ → ℕ
most_hits syn ack failed =
    let hits = if ltb syn ack then ack else syn in if ltb hits failed then failed else hits

unfoldable pub build_metrics_from_event : (f : Float) → Calendar → ℕ → ConnectionEvent → IpMetrics f
unfolding normalize_window most_hits scoring_direction
build_metrics_from_event f c now e =
    let w = normalize_window c now e.first_seen e.last_seen in
    record {
      syn_count = e.syn_count;
      ack_count = e.ack_count;
      rst_count = 0;
      failed_handshakes = e.failed_handshakes;
      unique_ports =
          if e.unique_ports_count == 0 && ltb 0 (length e.ports_accessed)
          then length e.ports_accessed
          else e.unique_ports_count;
      total_connections = e.syn_count + e.ack_count;
      window_start = w.0;
      window_end = w.1;
      established_connections = e.ack_count - e.syn_count;
      previous_score = pos e.threat_score;
      last_seen = 0;
      service_ports = e.ports_accessed;
      max_port_hits = most_hits e.syn_count e.ack_count e.failed_handshakes;
      primary_port = e.destination_port;
      cumulative_unique_ports = 0;
      cumulative_window_hours = f.of_int (pos 0);
      direction = scoring_direction e.direction;
    }

abbrev pub is_normal : WireLevel → Bool
is_normal WireLevel.normal = true
is_normal _ = false

abbrev pub is_no_threat : WireType → Bool
is_no_threat WireType.no_threat = true
is_no_threat _ = false

-- `scoreFromAgentEvent`; `none` is the false it returns.
unfoldable pub score_from_agent_event : (f : Float) → ConnectionEvent → Option (ThreatScore f)
unfolding scoring_threat_level scoring_threat_type scoring_direction
score_from_agent_event f e =
    if ltb 0 e.threat_score || not (is_normal e.threat_level) || not (is_no_threat e.threat_type)
    then some (record {
      score = pos e.threat_score;
      final_score = num f 0;
      level = scoring_threat_level e.threat_level;
      kind = scoring_threat_type e.threat_type;
      confidence = num f 1;
      direction = scoring_direction e.direction;
    })
    else none

-- The conversion of a uint32 to an int32.
unfoldable pub to_i32 : ℕ → ℤ
to_i32 n = if ltb n (2 ^ 31) then pos n else negsuc (2 ^ 32 - n - 1)
