-- ===== src/Tests/Traffic.antt =====
-- Runs of the theorems on the traffic analyzer, the scorer, the addresses and the statistics.
use kerneleye.Base.{
  ℕ, ◌≡◌, ◌≤◌, ◌<◌, ◌/◌, ◌^◌, ◌⊎◌, refl, true, false, none, some, [], ◌∷◌, All, length, arith,
}
use kerneleye.Base.Str.{Str, str, str_eq}
use kerneleye.Base.Dict.{lookup, insert, erase, Unique}
use kerneleye.Base.Int.{ℤ, pos, ◌≤ℤ◌, ltb_ℤ, leb_ℤ, eqb_ℤ, ◌-ℤ◌, ◌+ℤ◌}
use kerneleye.Float.{Float, FloatLaws}
use kerneleye.Scoring.{
  ThreatScorer, IpMetrics, no_threat, inbound, outbound, classify_threat, is_block_worthy,
}
use kerneleye.Scoring.Components.{
  calculate_confidence, calculate_syn_score, calculate_failed_score, calculate_service_abuse_score,
  calculate_burst_score,
}
use kerneleye.Scoring.Ports.{calculate_port_score}
use kerneleye.Scoring.Score.{calculate_score, total_events}
use kerneleye.Scoring.Bounds.{most, calculate_score-bounded, is_block_worthy_sound}
use kerneleye.Scoring.Kind.{
  component, candidates, admissible, qualifies, classify_threat_type, classify_threat_type-maximal,
}
use kerneleye.Analyzer.{
  AnalyzerConfig, Analyzer, TrafficEvent, Decision, IpState, evaluate, new_analyzer, new_state,
  count_recent, get_or_create_state, block,
}
use kerneleye.Analyzer.Wellformed.{event, cleanup, IsBounded, run, run_new-IsBounded}
use kerneleye.Analyzer.Verdicts.{Justified, evaluate-Justified, evaluate-block_once}
use kerneleye.Analyzer.Ring.{push_all, count, newest, count_recent-newest}
use kerneleye.Network.{bytes_to_ip, ipv4_to_bytes}
use kerneleye.Network.Wire.{bytes_to_ip-ipv4_to_bytes}
use kerneleye.SafeStats.{IpStats, SafeStats, IsSound, get_or_create, get_or_create-bounded}
use kerneleye.Tests.{address}

abbrev config : AnalyzerConfig
config = record {
  syn_flood_threshold = 1;
  syn_flood_window = 60;
  port_scan_threshold = 10;
  port_scan_window = 30;
  max_states = 2;
}

abbrev syn_at : ℕ → TrafficEvent
syn_at t = record { source_ip = address; dest_port = 22; protocol = 6; flags = 2; time = t }

count_recent-newest_example :
    let s = push_all (new_state config) (1 ∷ 50 ∷ 70 ∷ []) in
    count_recent 80 60 s.syn_len s.syns ≡ count 80 60 (newest 2 (1 ∷ 50 ∷ 70 ∷ []))
count_recent-newest_example = count_recent-newest config 80 60 (1 ∷ 50 ∷ 70 ∷ [])

run_new-IsBounded_example :
    IsBounded (run (new_analyzer config) (event (syn_at 1) ∷ cleanup 100 ∷ event (syn_at 200) ∷ []))
run_new-IsBounded_example =
    run_new-IsBounded config (event (syn_at 1) ∷ cleanup 100 ∷ event (syn_at 200) ∷ [])
      (ground arith)

abbrev warned : Analyzer
warned = (evaluate (new_analyzer config) (syn_at 50)).0

abbrev hour_block : Decision
hour_block = record {
  ip = address;
  action = block;
  duration = 3600000000000;
  dest_port = 22;
  protocol = 6;
}

flooded : (evaluate warned (syn_at 70)).1 ≡ some hour_block
unfolding evaluate lookup str_eq new_analyzer count_recent ◌-ℤ◌
flooded = refl

evaluate-Justified_example :
    (s' : IpState) × (lookup address (evaluate warned (syn_at 70)).0.states ≡ some s')
    × Justified warned.config (syn_at 70) (get_or_create_state warned address).0 s' hour_block
evaluate-Justified_example = evaluate-Justified warned (syn_at 70) hour_block flooded

evaluate-block_once_example :
    let r = evaluate (evaluate warned (syn_at 70)).0 (syn_at 71) in
    (r.1 ≡ none) × ((s : IpState) × (lookup address r.0.states ≡ some s) × (s.blocked ≡ true))
evaluate-block_once_example =
    evaluate-block_once warned (syn_at 70) (syn_at 71) hour_block flooded refl refl

-- Whole numbers in place of floats; the functions that the example does not need are constant.
abbrev pub whole : Float
whole = record {
  F = ℤ;
  of_int = λ n. n;
  decimal = λ m k. pos (m / 10 ^ k);
  trunc = λ x. x;
  seconds = λ d. d;
  hours = λ d. d;
  add = λ x y. x +ℤ y;
  sub = λ x y. x -ℤ y;
  mul = λ x y. x;
  div = λ x y. x;
  pow = λ x y. x;
  log10 = λ x. x;
  sqrt = λ x. x;
  max = λ x y. x;
  lt = ltb_ℤ;
  le = leb_ℤ;
  eq = eqb_ℤ;
}

whole_laws : FloatLaws whole
whole_laws = record {
  lt_irrefl = λ x. ground arith;
  lt_trans = λ x y z p q. ground arith;
  lt_eq = λ x y z p. ground arith;
  trunc_le = λ x n b h. ground arith;
}

abbrev metrics : IpMetrics whole
metrics = record {
  syn_count = 2000;
  ack_count = 0;
  rst_count = 0;
  failed_handshakes = 0;
  unique_ports = 1;
  total_connections = 2000;
  window_start = 0;
  window_end = 20000000000;
  established_connections = 0;
  previous_score = pos 0;
  last_seen = 0;
  service_ports = [];
  max_port_hits = 0;
  primary_port = 0;
  cumulative_unique_ports = 0;
  cumulative_window_hours = pos 0;
  direction = outbound;
}

abbrev pub scorer : ThreatScorer whole
scorer = record {
  syn_rate_weight = pos 10;
  unique_ports_weight = pos 2;
  failed_handshake_weight = pos 15;
  service_abuse_weight = pos 8;
  normal_syn_rate = pos 1;
  suspicious_syn_rate = pos 10;
  port_scan_threshold = 3;
  failed_handshake_rate = pos 1;
  service_abuse_threshold = 5;
  suspicious_threshold = pos 20;
  malicious_threshold = pos 40;
  auto_block_threshold = pos 40;
  min_window_duration = pos 10;
  score_decay_rate = pos 1;
}

calculate_score-bounded_example :
    (calculate_score whole scorer 5 metrics).score
    ≤ℤ pos (most metrics (calculate_score whole scorer 5 metrics).confidence)
calculate_score-bounded_example = calculate_score-bounded whole_laws scorer 5 metrics

abbrev attack : IpMetrics whole
attack = record metrics { direction = inbound }

attack-worthy : is_block_worthy whole scorer (calculate_score whole scorer 5 attack) ≡ true
unfolding is_block_worthy calculate_score classify_threat calculate_confidence ◌-ℤ◌ ◌+ℤ◌
    calculate_syn_score calculate_port_score calculate_failed_score calculate_service_abuse_score
    calculate_burst_score
attack-worthy = refl

is_block_worthy_sound_example :
    let r = calculate_score whole scorer 5 attack in
    (pos 40 ≤ℤ r.score)
    × (pos 40 ≤ℤ r.score)
    × (whole.le (pos 0) r.confidence ≡ true)
    × ¬ ((inbound ≡ outbound) × (total_events attack ≤ 3))
is_block_worthy_sound_example =
    is_block_worthy_sound whole_laws scorer 5 attack (ground arith) attack-worthy

classify_threat_type-maximal_example :
    let t = classify_threat_type whole scorer metrics (pos 7) (pos 3) (pos 0) (pos 0) (pos 1) in
    let v = component whole (pos 7) (pos 3) (pos 0) (pos 0) (pos 1) t in
    ((t ≡ no_threat) ⊎ ((whole.le v (pos 0) ≡ false) × (qualifies whole scorer metrics t v ≡ true)))
    × All
        (λ c. admissible whole scorer metrics c ≡ true → whole.lt v c.value ≡ false)
        (candidates whole (pos 7) (pos 3) (pos 0) (pos 0) (pos 1))
classify_threat_type-maximal_example =
    classify_threat_type-maximal whole_laws scorer metrics (pos 7) (pos 3) (pos 0) (pos 0) (pos 1)

bytes_to_ip-ipv4_to_bytes_example :
    bytes_to_ip (ipv4_to_bytes (some (8 ∷ 8 ∷ 4 ∷ 4 ∷ []))) 2 ≡ some (8 ∷ 8 ∷ 4 ∷ 4 ∷ [])
bytes_to_ip-ipv4_to_bytes_example =
    bytes_to_ip-ipv4_to_bytes 8 8 4 4 (ground arith) (ground arith) (ground arith) (ground arith)

abbrev seen_at : ℕ → IpStats ℕ
seen_at t = record { first_seen = t; stats = 1 }

abbrev full_map : SafeStats ℕ
full_map = record { items = (str "a", seen_at 7) ∷ (str "b", seen_at 3) ∷ []; max_items = 2 }

full-IsSound : IsSound 10 full_map
unfolding lookup str_eq
full-IsSound = record {
  unique = (refl, (refl, tt));
  before = (ground arith, (ground arith, tt));
  named = refl;
  room = ground arith;
  bound = ground arith;
}

absent : lookup address full_map.items ≡ none
unfolding lookup str_eq
absent = refl

get_or_create-bounded_example :
    let s' = (get_or_create 10 full_map address (seen_at 10)).0 in
    (length s'.items ≤ 2)
    × Unique s'.items
    × ((length full_map.items < 2 × (s'.items ≡ insert address (seen_at 10) full_map.items))
        ⊎ ((k : Str) × (v : IpStats ℕ) × (lookup k full_map.items ≡ some v)
            × All (λ e. v.first_seen ≤ e.1.first_seen) full_map.items
            × (s'.items ≡ insert address (seen_at 10) (erase k full_map.items))))
get_or_create-bounded_example =
    get_or_create-bounded 10 full_map address (seen_at 10) full-IsSound absent
