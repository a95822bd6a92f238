-- ===== src/Scoring/Components.antt =====
-- shared/scoring/scorer.go: the confidence and the components of a score but for the port scan's.
use kerneleye.Base.{ℕ, ◌+◌, Bool, ◌&&◌, not, ltb, leb, ◌==◌, if◌then◌else◌}
use kerneleye.Float.{Float, num}
use kerneleye.Scoring.{ThreatScorer, IpMetrics, is_outbound}

unfoldable pub calculate_confidence : (f : Float) → ThreatScorer f → f.F → f.F
calculate_confidence f ts duration =
    let least = f.seconds ts.min_window_duration in
    let conf = f.div duration least in
    if f.le least duration
    then num f 1
    else if f.lt conf (f.decimal 1 1)
    then f.decimal 1 1
    else conf

-- Whether many packets with few SYNs among them hide a moderate SYN rate.
unfoldable pub syn_suppressed : (f : Float) → ThreatScorer f → f.F → IpMetrics f → Bool
syn_suppressed f ts syn_rate m =
    let total = m.syn_count + m.ack_count in
    ltb 10 total
    && f.le syn_rate ts.suspicious_syn_rate
    && f.lt (f.div (num f m.syn_count) (num f total)) (f.decimal 5 1)

unfoldable pub calculate_syn_score : (f : Float) → ThreatScorer f → f.F → IpMetrics f → f.F
unfolding syn_suppressed
calculate_syn_score f ts syn_rate m =
    if f.le syn_rate ts.normal_syn_rate
    then num f 0
    else if syn_suppressed f ts syn_rate m
    then num f 0
    else if f.lt ts.suspicious_syn_rate syn_rate
    then f.add (num f 5)
        (f.mul (f.log10 (f.add (f.sub syn_rate ts.suspicious_syn_rate) (num f 1))) (num f 3))
    else f.div (f.sub syn_rate ts.normal_syn_rate) ts.normal_syn_rate

-- The multiple of the usual threshold that outbound traffic must pass.
abbrev threshold_multiplier : (f : Float) → IpMetrics f → f.F
threshold_multiplier f m = if is_outbound m.direction then num f 2 else num f 1

-- What the failures are penalised by in the default case.
abbrev penalty : (f : Float) → ThreatScorer f → f.F → IpMetrics f → f.F
penalty f ts failed_rate m =
    let p =
      f.mul (f.sub failed_rate (f.mul ts.failed_handshake_rate (threshold_multiplier f m)))
        (f.decimal 15 1) in
    if is_outbound m.direction then f.mul p (f.decimal 5 1) else p

unfoldable pub calculate_failed_score : (f : Float) → ThreatScorer f → f.F → IpMetrics f → f.F
calculate_failed_score f ts failed_rate m =
    let multiplier = threshold_multiplier f m in
    let total = m.failed_handshakes + m.established_connections in
    let ratio = f.div (num f m.failed_handshakes) (num f total) in
    if ltb m.failed_handshakes 3
    then num f 0
    else if f.le failed_rate (f.mul ts.failed_handshake_rate multiplier)
    then num f 0
    else if not (ltb 0 total)
    then penalty f ts failed_rate m
    else if f.lt ratio (f.decimal 5 1) && ltb 5 m.established_connections
    then num f 0
    else if f.lt (f.mul (num f 5) multiplier) failed_rate && f.lt (f.decimal 6 1) ratio
    then f.add (if is_outbound m.direction then num f 2 else num f 3)
        (f.sub failed_rate (f.mul ts.failed_handshake_rate multiplier))
    else if f.lt (f.decimal 9 1) ratio && leb 5 m.failed_handshakes
    then f.add (num f 3) (f.sub failed_rate ts.failed_handshake_rate)
    else penalty f ts failed_rate m

-- The severity of a rate of hits, and of their number.
unfoldable pub rate_severity : (f : Float) → f.F → f.F
rate_severity f hits_per_sec =
    if f.le (num f 50) hits_per_sec
    then num f 10
    else if f.le (num f 25) hits_per_sec
    then num f 7
    else if f.le (num f 10) hits_per_sec
    then num f 5
    else num f 3

unfoldable pub volume_severity : (f : Float) → ℕ → f.F
volume_severity f hits =
    if leb 1000 hits
    then num f 10
    else if leb 500 hits
    then num f 8
    else if leb 200 hits
    then num f 6
    else if leb 100 hits
    then num f 4
    else num f 0

unfoldable pub calculate_service_abuse_score :
    (f : Float) → ThreatScorer f → IpMetrics f → f.F → f.F
unfolding rate_severity volume_severity
calculate_service_abuse_score f ts m window =
    let effective = if f.lt window (num f 1) then num f 1 else window in
    let severity = rate_severity f (f.div (num f m.max_port_hits) effective) in
    let volume = volume_severity f m.max_port_hits in
    if ltb m.max_port_hits ts.service_abuse_threshold
    then num f 0
    else if f.lt severity volume
    then volume
    else severity

unfoldable pub volume_score : (f : Float) → ℕ → f.F
volume_score f initiations =
    if ltb 1000 initiations
    then num f 3
    else if ltb 500 initiations
    then num f 2
    else if ltb 200 initiations
    then num f 1
    else num f 0

unfoldable pub calculate_burst_score : (f : Float) → f.F → f.F → ℕ → ℕ → f.F
unfolding volume_score
calculate_burst_score f rate duration total_connections syn_count =
    let volume = volume_score f (if syn_count == 0 then total_connections else syn_count) in
    let adaptive = f.mul (num f 10) (f.max (num f 1) (f.div duration (num f 60))) in
    if f.lt duration (num f 10) && f.lt (num f 20) rate
    then num f 5
    else if f.lt adaptive rate
    then f.add (f.mul (f.log10 (f.div rate adaptive)) (num f 5)) volume
    else volume
