-- ===== src/Scoring/Score.antt =====
-- shared/scoring/scorer.go: `CalculateScore`, `CalculateBatchScores` and the decay of an old score.
use kerneleye.Base.{ℕ, ◌+◌, ◌*◌, ◌/◌, ◌&&◌, ◌||◌, not, List, [], ◌∷◌, ltb, leb, ◌==◌, if◌then◌else◌}
use kerneleye.Base.Dict.{Dict}
use kerneleye.Base.Int.{ℤ, pos, ltb_ℤ, ◌-ℤ◌}
use kerneleye.Float.{Float, num}
use kerneleye.Scoring.{ThreatScorer, ThreatScore, IpMetrics, is_outbound, classify_threat}
use kerneleye.Scoring.Components.{
  calculate_confidence, calculate_syn_score, calculate_failed_score, calculate_service_abuse_score,
  calculate_burst_score,
}
use kerneleye.Scoring.Ports.{calculate_port_score}
use kerneleye.Scoring.Kind.{classify_threat_type}

-- `applyTimeDecay`, at the time `now`.
unfoldable pub apply_time_decay : (f : Float) → ThreatScorer f → ℕ → f.F → ℕ → f.F
apply_time_decay f ts now score last_seen =
    let hours_since = f.hours (pos now -ℤ pos last_seen) in
    let decayed = f.mul score (f.pow ts.score_decay_rate hours_since) in
    if f.le score (num f 0)
    then num f 0
    else if f.le hours_since (num f 0)
    then score
    else if f.lt decayed (num f 5)
    then num f 0
    else decayed

-- The window that rates are taken over.
unfoldable pub effective_window : (f : Float) → ThreatScorer f → f.F → f.F
effective_window f ts window =
    let least = f.seconds ts.min_window_duration in
    let w = if f.lt window least then least else window in if f.lt w (num f 1) then num f 1 else w

unfoldable pub clamp_previous : ℤ → ℤ
clamp_previous score =
    if ltb_ℤ (pos 100) score then pos 100 else if ltb_ℤ score (pos 0) then pos 0 else score

-- The five components.
pub record Components (f : Float) : Type 0 where
  pub syn : f.F
  pub port : f.F
  pub failed : f.F
  pub burst : f.F
  pub service : f.F

unfoldable pub components : (f : Float) → ThreatScorer f → IpMetrics f → f.F → Components f
unfolding effective_window
components f ts m window =
    let w = effective_window f ts window in
    let rate = f.div (num f m.total_connections) w in
    let burst = calculate_burst_score f rate window m.total_connections m.syn_count in
    record {
      syn = calculate_syn_score f ts (f.div (num f m.syn_count) w) m;
      port = calculate_port_score f ts m rate window;
      failed = calculate_failed_score f ts (f.div (num f m.failed_handshakes) w) m;
      burst =
          if ltb 5 m.rst_count
            && (m.established_connections == 0 || ltb (m.established_connections * 2) m.rst_count)
          then f.add burst (num f 3)
          else burst;
      service = calculate_service_abuse_score f ts m w;
    }

-- How many of the ports are those of a usual service.
unfoldable pub service_hits : List ℕ → ℕ
service_hits [] = 0
service_hits (p ∷ ps) =
    if p == 80 || p == 443 || p == 22 || p == 53 then 1 + service_hits ps else service_hits ps

unfoldable pub raw_score : (f : Float) → ThreatScorer f → IpMetrics f → Components f → f.F
unfolding service_hits
raw_score f ts m c =
    let raw =
      f.add
        (f.add
          (f.add (f.add (f.mul c.syn ts.syn_rate_weight) (f.mul c.port ts.unique_ports_weight))
            (f.mul c.failed ts.failed_handshake_weight))
          (f.mul c.service ts.service_abuse_weight))
        c.burst in
    let hits = service_hits m.service_ports in
    if ltb 0 hits && ltb 0 m.unique_ports && leb (m.unique_ports / 2) hits
    then f.mul raw (f.decimal 8 1)
    else raw

-- The score after the history of the address: it rises fast and falls slowly.
unfoldable pub with_history : (f : Float) → ThreatScorer f → ℕ → IpMetrics f → f.F → f.F
unfolding apply_time_decay clamp_previous
with_history f ts now m score =
    let previous = clamp_previous m.previous_score in
    let decayed = apply_time_decay f ts now (f.of_int previous) m.last_seen in
    if ltb_ℤ (pos 0) previous && not (m.last_seen == 0)
    then (if f.lt decayed score
        then f.add (f.mul score (f.decimal 7 1)) (f.mul decayed (f.decimal 3 1))
        else f.add (f.mul score (f.decimal 3 1)) (f.mul decayed (f.decimal 7 1)))
    else score

unfoldable pub cap : (f : Float) → ℕ → f.F → f.F
cap f most x = if f.lt (num f most) x then num f most else x

abbrev pub total_events : {f : Float} → IpMetrics f → ℕ
total_events m = m.syn_count + m.ack_count + m.failed_handshakes

-- The three caps: for low confidence and volume, for outbound traffic of low volume, for all.
unfoldable pub capped : (f : Float) → IpMetrics f → f.F → f.F → f.F
unfolding cap
capped f m confidence x =
    let y = if f.lt confidence (f.decimal 5 1) && ltb (total_events m) 5 then cap f 40 x else x in
    let z = if is_outbound m.direction && leb (total_events m) 3 then cap f 30 y else y in
    cap f 100 z

-- `metrics.WindowEnd.Sub(metrics.WindowStart).Seconds()`
abbrev pub window_of : (f : Float) → IpMetrics f → f.F
window_of f m = f.seconds (pos m.window_end -ℤ pos m.window_start)

-- `adjustedScore` at the end of `CalculateScore`.
unfoldable pub adjusted_score : (f : Float) → ThreatScorer f → ℕ → IpMetrics f → f.F
unfolding components raw_score with_history capped
adjusted_score f ts now m =
    let c = components f ts m (window_of f m) in
    capped f m (calculate_confidence f ts (window_of f m))
      (with_history f ts now m (raw_score f ts m c))

unfoldable pub calculate_score : (f : Float) → ThreatScorer f → ℕ → IpMetrics f → ThreatScore f
unfolding components adjusted_score
calculate_score f ts now m =
    let c = components f ts m (window_of f m) in
    let adjusted = adjusted_score f ts now m in
    record {
      score = f.trunc adjusted;
      final_score = adjusted;
      level = classify_threat f ts (f.trunc adjusted);
      kind = classify_threat_type f ts m c.syn c.port c.failed c.service c.burst;
      confidence = calculate_confidence f ts (window_of f m);
      direction = m.direction;
    }

unfoldable pub calculate_batch_scores :
    (f : Float) → ThreatScorer f → ℕ → Dict (IpMetrics f) → Dict (ThreatScore f)
unfolding calculate_score
calculate_batch_scores f ts now [] = []
calculate_batch_scores f ts now ((ip, m) ∷ ms) =
    (ip, calculate_score f ts now m) ∷ calculate_batch_scores f ts now ms
