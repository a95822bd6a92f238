-- ===== src/Analyzer/Verdicts.antt =====
-- The analyzer's decisions.
use kerneleye.Base.{ap, ◌*◌, ◌<◌, ◌≡◌, ◌⊎◌, refl, true, false, none, some, length, arith}
use kerneleye.Base.Str.{Str, str_eq_refl}
use kerneleye.Base.Dict.{lookup}
use kerneleye.Analyzer.{
  AnalyzerConfig, IpState, Analyzer, TrafficEvent, Decision, block, rate_limit, second, is_syn,
  push_syn, put_port, recent_ports, count_recent, check_ports, check_syn, judge,
  get_or_create_state, evaluate,
}

-- Why an event on a state is answered by a decision: an hour's block for more SYNs in the window than
-- the threshold, or a rate limit of ten minutes for more ports than the threshold, once.
pub Justified : AnalyzerConfig → TrafficEvent → IpState → IpState → Decision → Type 0
Justified cfg e s s' d =
    (d.ip ≡ e.source_ip)
    × (s.blocked ≡ false)
    × (((d.action ≡ block)
          × (d.duration ≡ 3600 * second)
          × (is_syn e ≡ true)
          × (s'.blocked ≡ true)
          × cfg.syn_flood_threshold
            < count_recent e.time cfg.syn_flood_window (push_syn e.time s).syn_len
                (push_syn e.time s).syns)
        ⊎ ((d.action ≡ rate_limit)
            × (d.duration ≡ 600 * second)
            × (s.rate_limited ≡ false)
            × (s'.rate_limited ≡ true)
            × cfg.port_scan_threshold
              < length
                  (recent_ports e.time cfg.port_scan_window (put_port e.dest_port e.time s.ports))))

judge-Justified :
    (cfg : AnalyzerConfig) (e : TrafficEvent) (s : IpState) (d : Decision)
    → (judge cfg e s).1 ≡ some d
    → Justified cfg e s (judge cfg e s).0 d
unfolding judge check_syn check_ports push_syn Justified
judge-Justified cfg e s d h = ground arith

-- A decision is about the source of its event, whose state had not been blocked, and is one of two. A
-- block of an hour answers a TCP event with flag 0x02, if with it the ring holds more times of the window than the threshold,
-- and marks the address blocked. A rate limit of ten minutes answers an event, if with it more ports
-- than the threshold were met in the window and the address was not marked as limited, and marks it so.
-- The state that the event leaves is the one that is found for the address.
pub evaluate-Justified :
    (a : Analyzer) (e : TrafficEvent) (d : Decision)
    → (evaluate a e).1 ≡ some d
    → (s' : IpState) × (lookup e.source_ip (evaluate a e).0.states ≡ some s')
      × Justified a.config e (get_or_create_state a e.source_ip).0 s' d
unfolding evaluate lookup
evaluate-Justified a e d h =
    ((judge a.config e s).0, rw (str_eq_refl e.source_ip) refl, judge-Justified a.config e s d h)
  where
    s : IpState
    s = (get_or_create_state a e.source_ip).0

get_or_create_state-found :
    (a : Analyzer) (ip : Str) (s : IpState)
    → lookup ip a.states ≡ some s
    → (get_or_create_state a ip).0 ≡ s
unfolding get_or_create_state
get_or_create_state-found a ip s h = ground (arith, h)

judge_blocked :
    (cfg : AnalyzerConfig) (e : TrafficEvent) (s : IpState)
    → s.blocked ≡ true
    → judge cfg e s ≡ (s, none)
unfolding judge
judge_blocked cfg e s h = ground (arith, h)

evaluate_blocked :
    (a : Analyzer) (e : TrafficEvent) (s : IpState)
    → lookup e.source_ip a.states ≡ some s
    → s.blocked ≡ true
    → ((evaluate a e).1 ≡ none) × (lookup e.source_ip (evaluate a e).0.states ≡ some s)
unfolding evaluate lookup
evaluate_blocked a e s found bl =
    (ap (λ r. r.1) silent, rw (str_eq_refl e.source_ip) (ap (λ r. some r.0) silent))
  where
    silent : judge a.config e (get_or_create_state a e.source_ip).0 ≡ (s, none)
    silent = rw (get_or_create_state-found a e.source_ip s found) (judge_blocked a.config e s bl)

-- An address is blocked once: after an event of it that was answered by a block, another event of it
-- that comes next is answered by nothing and leaves it blocked.
pub evaluate-block_once :
    (a : Analyzer) (e e' : TrafficEvent) (d : Decision)
    → (evaluate a e).1 ≡ some d
    → d.action ≡ block
    → e'.source_ip ≡ e.source_ip
    → let r = evaluate (evaluate a e).0 e' in
      (r.1 ≡ none)
      × ((s : IpState) × (lookup e'.source_ip r.0.states ≡ some s) × (s.blocked ≡ true))
unfolding Justified
evaluate-block_once a e e' d h b same =
    let (s, found, why) = evaluate-Justified a e d h in
    let after = evaluate_blocked (evaluate a e).0 e' s (rw same found) (marked s why) in
    (after.0, (s, after.1, marked s why))
  where
    marked :
        (s : IpState)
        → Justified a.config e (get_or_create_state a e.source_ip).0 s d
        → s.blocked ≡ true
    marked s why = ground (arith, why, b)
