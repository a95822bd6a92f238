-- ===== src/Scoring.antt =====
-- shared/scoring: the threat scorer. types.go and the parts of scorer.go that work on whole scores are
-- here; the float computation is in the children, on an unknown float64 (Float).
pub mod Components
pub mod Ports
pub mod Kind
pub mod Score
pub mod Bounds
use kerneleye.Base.{ℕ, ◌*◌, ◌^◌, Bool, true, false, ◌&&◌, List, [], ◌∷◌, if◌then◌else◌, ◌==◌}
use kerneleye.Base.Str.{Str, str}
use kerneleye.Base.Int.{ℤ, pos, ltb_ℤ, leb_ℤ}
use kerneleye.Float.{Float, num}

pub data ThreatLevel : Type 0 where
  normal suspicious malicious : ThreatLevel

pub data ThreatType : Type 0 where
  no_threat port_scan service_abuse syn_flood failed_handshake connection_burst : ThreatType

pub data Direction : Type 0 where
  unknown inbound outbound : Direction

abbrev pub is_outbound : Direction → Bool
is_outbound outbound = true
is_outbound _ = false

abbrev pub is_malicious : ThreatLevel → Bool
is_malicious malicious = true
is_malicious _ = false

-- `IPMetrics`, less `BytesIn`, `BytesOut` and `PortHits`, which the scorer does not read. Counts are
-- never negative; times are nanoseconds, 0 is Go's zero time.
pub record IpMetrics (f : Float) : Type 0 where
  pub syn_count : ℕ
  pub ack_count : ℕ
  pub rst_count : ℕ
  pub failed_handshakes : ℕ
  pub unique_ports : ℕ
  pub total_connections : ℕ
  pub window_start : ℕ
  pub window_end : ℕ
  pub established_connections : ℕ
  pub previous_score : ℤ
  pub last_seen : ℕ
  pub service_ports : List ℕ
  pub max_port_hits : ℕ
  pub primary_port : ℕ
  pub cumulative_unique_ports : ℕ
  pub cumulative_window_hours : f.F
  pub direction : Direction

-- `ThreatScorer`
pub record ThreatScorer (f : Float) : Type 0 where
  pub syn_rate_weight : f.F
  pub unique_ports_weight : f.F
  pub failed_handshake_weight : f.F
  pub service_abuse_weight : f.F
  pub normal_syn_rate : f.F
  pub suspicious_syn_rate : f.F
  pub port_scan_threshold : ℕ
  pub failed_handshake_rate : f.F
  pub service_abuse_threshold : ℕ
  pub suspicious_threshold : ℤ
  pub malicious_threshold : ℤ
  pub auto_block_threshold : ℤ
  pub min_window_duration : ℤ
  pub score_decay_rate : f.F

-- `NewThreatScorer`
unfoldable pub raise_auto_block : (f : Float) → ThreatScorer f → ThreatScorer f
raise_auto_block f ts =
    if ltb_ℤ ts.auto_block_threshold ts.malicious_threshold
    then record ts { auto_block_threshold = ts.malicious_threshold }
    else ts

unfoldable pub new_threat_scorer : (f : Float) → ThreatScorer f
unfolding raise_auto_block
new_threat_scorer f = raise_auto_block f (record {
  syn_rate_weight = num f 10;
  unique_ports_weight = num f 2;
  failed_handshake_weight = num f 15;
  service_abuse_weight = num f 8;
  normal_syn_rate = f.decimal 5 2;
  suspicious_syn_rate = num f 1;
  port_scan_threshold = 3;
  failed_handshake_rate = f.decimal 5 1;
  service_abuse_threshold = 5;
  suspicious_threshold = pos 20;
  malicious_threshold = pos 40;
  auto_block_threshold = pos 40;
  min_window_duration = pos (10 * 10 ^ 9);
  score_decay_rate = f.decimal 95 2;
})

-- `ThreatScore`, less the raw components and the time stamp, which are only reported.
pub record ThreatScore (f : Float) : Type 0 where
  pub score : ℤ
  pub final_score : f.F
  pub level : ThreatLevel
  pub kind : ThreatType
  pub confidence : f.F
  pub direction : Direction

unfoldable pub classify_threat : (f : Float) → ThreatScorer f → ℤ → ThreatLevel
classify_threat f ts score =
    if leb_ℤ ts.malicious_threshold score
    then malicious
    else if leb_ℤ ts.suspicious_threshold score
    then suspicious
    else normal

unfoldable pub is_block_worthy : (f : Float) → ThreatScorer f → ThreatScore f → Bool
is_block_worthy f ts score =
    is_malicious score.level
    && leb_ℤ ts.auto_block_threshold score.score
    && f.le (f.decimal 5 1) score.confidence

-- `AdjustThresholdsForEnvironment`
unfoldable pub adjust_thresholds_for_environment :
    (f : Float) → ThreatScorer f → f.F → f.F → ThreatScorer f
adjust_thresholds_for_environment f ts avg_syn_rate avg_connection_rate = record ts {
  normal_syn_rate = f.mul avg_syn_rate (f.decimal 15 1);
  suspicious_syn_rate = f.mul avg_syn_rate (num f 5);
}

-- The names of `getServiceName`.
unfoldable pub get_service_name : ℕ → Str
get_service_name port =
    if port == 22
    then str "SSH"
    else if port == 80
    then str "HTTP"
    else if port == 443
    then str "HTTPS"
    else if port == 25
    then str "SMTP"
    else if port == 3306
    then str "MySQL"
    else if port == 5432
    then str "PostgreSQL"
    else if port == 6379
    then str "Redis"
    else if port == 27017
    then str "MongoDB"
    else if port == 21
    then str "FTP"
    else if port == 23
    then str "Telnet"
    else if port == 3389
    then str "RDP"
    else if port == 587
    then str "SMTP"
    else if port == 110
    then str "POP3"
    else if port == 143
    then str "IMAP"
    else str "Unknown"
