-- ===== src/AutoBlocker/Guards.antt =====
-- What the auto-blocker acts on, and for how long.
use kerneleye.Base.{◌≡◌, ◌≢◌, true, false, some, List, [], ◌∷◌, arith}
use kerneleye.Base.Str.{Str}
use kerneleye.Base.Int.{ℤ, ◌≤ℤ◌}
use kerneleye.Float.{Float}
use kerneleye.Scoring.{ThreatScore, outbound}
use kerneleye.AutoBlocker.{
  AutoBlocker, Remediator, Deed, blocks, rate_limits, process_score, is_candidate, limited, act,
  check_rate_limit, calculate_duration, min_duration, roll_minute,
}

-- All that stands behind a deed.
pub record Warranted (f : Float) (r : Remediator) (ab : AutoBlocker f) (ip : Str)
    (score : ThreatScore f) (parsed : Str) (duration : ℤ) : Type 0 where
  pub enabled : ab.config.enabled ≡ true
  pub inbound : score.direction ≢ outbound
  pub high : ab.config.block_threshold ≤ℤ score.score
  pub sure : f.lt score.confidence (f.decimal 8 1) ≡ false
  pub known : r.parse_ip ip ≡ some parsed
  pub unsafe : r.safelisted parsed ≡ false
  pub fresh : r.is_blocked parsed ≡ false
  pub short : duration ≤ℤ ab.config.max_block_duration

abbrev pub deed_duration : Deed → ℤ
deed_duration (blocks ip d) = d
deed_duration (rate_limits ip d) = d

abbrev pub deed_target : Deed → Str
deed_target (blocks ip d) = ip
deed_target (rate_limits ip d) = ip

-- A score makes the auto-blocker act at most once, on the address that it parsed, and only if it is
-- enabled, the traffic is not outbound, score and confidence are high enough, and the address is
-- neither on the safelist nor blocked. The duration, as a signed number, is at most the longest one; a
-- negative duration, which the conversion from float64 gives where it overflows, is not excluded.
pub process_score-Warranted :
    (f : Float) (r : Remediator) (ab : AutoBlocker f) (now : ℤ) (ip : Str) (score : ThreatScore f)
    (d : Deed) (ds : List Deed)
    → (process_score f r ab now ip score).deeds ≡ d ∷ ds
    → (ds ≡ []) × Warranted f r ab ip score (deed_target d) (deed_duration d)
unfolding process_score is_candidate limited act calculate_duration min_duration check_rate_limit
    roll_minute
process_score-Warranted f r ab now ip score d ds h = ground arith
