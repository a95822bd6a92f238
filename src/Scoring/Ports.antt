-- ===== src/Scoring/Ports.antt =====
-- shared/scoring/scorer.go: the port scan component, `calculatePortScore`.
use kerneleye.Base.{◌+◌, ◌*◌, ◌&&◌, ltb, leb, if◌then◌else◌}
use kerneleye.Base.Int.{pos, ◌-ℤ◌}
use kerneleye.Float.{Float, num}
use kerneleye.Scoring.{ThreatScorer, IpMetrics}

-- The duration that rates are taken over: the scorer's least one, or 1, for none.
unfoldable pub port_duration : (f : Float) → ThreatScorer f → f.F → f.F
port_duration f ts duration =
    let least = f.seconds ts.min_window_duration in
    if f.le duration (num f 0) then (if f.le least (num f 0) then num f 1 else least) else duration

-- The ports above the threshold.
unfoldable pub port_excess : (f : Float) → ThreatScorer f → IpMetrics f → f.F
port_excess f ts m =
    let excess = f.of_int (pos m.unique_ports -ℤ pos ts.port_scan_threshold) in
    if f.lt excess (num f 0) then num f 0 else excess

-- Fast scans.
unfoldable pub fast_scan : (f : Float) → ThreatScorer f → IpMetrics f → f.F → f.F → f.F
unfolding port_excess
fast_scan f ts m connection_rate duration =
    let per_sec = f.div (num f m.unique_ports) duration in
    let per_connection = f.div (num f m.unique_ports) (f.add connection_rate (num f 1)) in
    let dynamic = f.max (f.decimal 5 1) (f.div (num f 5) duration) in
    let excess = port_excess f ts m in
    if f.le per_connection (f.decimal 8 1)
    then (if leb (ts.port_scan_threshold + 3) m.unique_ports
          && f.lt (f.mul dynamic (f.decimal 15 1)) per_sec
        then f.add (num f 1) (f.mul excess (f.decimal 25 2))
        else num f 0)
    else if leb m.unique_ports 10
    then (if f.le (f.mul dynamic (f.decimal 6 1)) per_sec
        then f.add (num f 1) (f.mul excess (f.decimal 4 1))
        else num f 0)
    else if f.lt dynamic per_sec
    then f.add (num f 5) (f.sqrt excess)
    else num f 0

-- A slow scan's score, where it exceeds the fast one's.
unfoldable pub slow_scan : (f : Float) → ThreatScorer f → IpMetrics f → f.F → f.F
slow_scan f ts m score =
    let rate = f.div (num f m.cumulative_unique_ports) m.cumulative_window_hours in
    let slow = f.mul (f.log10 rate) (num f 2) in
    if leb (ts.port_scan_threshold * 3) m.cumulative_unique_ports
      && f.lt (f.decimal 5 1) m.cumulative_window_hours
      && f.lt (num f 10) rate
      && f.lt score slow
    then slow
    else score

unfoldable pub calculate_port_score : (f : Float) → ThreatScorer f → IpMetrics f → f.F → f.F → f.F
unfolding fast_scan slow_scan port_duration
calculate_port_score f ts m connection_rate duration =
    if ltb m.unique_ports ts.port_scan_threshold
      && ltb m.cumulative_unique_ports (ts.port_scan_threshold * 2)
    then num f 0
    else slow_scan f ts m (fast_scan f ts m connection_rate (port_duration f ts duration))
