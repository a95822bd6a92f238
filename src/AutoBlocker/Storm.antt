-- ===== src/AutoBlocker/Storm.antt =====
-- How many blocks a minute sees.
use kerneleye.Base.{
  ◌+◌, ◌≡◌, ◌≤◌, subst, sym, false, List, [], ◌∷◌, length, length-append, All, ◌++◌, arith,
}
use kerneleye.Base.Str.{Str}
use kerneleye.Base.Int.{ℤ, ◌-ℤ◌, ltb_ℤ}
use kerneleye.Float.{Float}
use kerneleye.Scoring.{ThreatScore}
use kerneleye.AutoBlocker.{
  AutoBlocker, Remediator, Verdict, process_score, limited, act, check_rate_limit, Deed,
  roll_minute, minute, record_block,
}

-- A score as it comes: the time, the address and the score.
abbrev pub Scored : Float → Type 0
Scored f = ℤ × Str × ThreatScore f

-- The deeds of a run of scores.
abbrev pub deeds_of : (f : Float) → Remediator → AutoBlocker f → List (Scored f) → List Deed
deeds_of f r ab [] = []
deeds_of f r ab ((now, ip, score) ∷ xs) =
    let v = process_score f r ab now ip score in v.deeds ++ deeds_of f r v.state xs

-- The times of the scores are at most a minute after a time.
abbrev pub WithinMinute : {f : Float} → ℤ → List (Scored f) → Type 0
WithinMinute start = All (λ x. ltb_ℤ minute (x.0 -ℤ start) ≡ false)

-- A deed takes one of the minute's places.
process_score-counts :
    (f : Float) (r : Remediator) (ab : AutoBlocker f) (now : ℤ) (ip : Str) (score : ThreatScore f)
    → ltb_ℤ minute (now -ℤ ab.last_minute) ≡ false
    → ab.blocks_this_minute ≤ ab.config.max_blocks_per_minute
    → let v = process_score f r ab now ip score in
      (v.state.config ≡ ab.config)
      × (v.state.last_minute ≡ ab.last_minute)
      × (ab.blocks_this_minute + length v.deeds ≤ v.state.blocks_this_minute)
      × (v.state.blocks_this_minute ≤ ab.config.max_blocks_per_minute)
unfolding process_score limited act check_rate_limit roll_minute record_block
process_score-counts f r ab now ip score h le = ground arith

-- Whatever scores come, the auto-blocker acts at most so often as configured between a reset of its
-- count and a minute after it, together with the deeds that are counted already.
pub deeds_of-limit :
    (f : Float) (r : Remediator) (ab : AutoBlocker f) (xs : List (Scored f))
    → WithinMinute ab.last_minute xs
    → ab.blocks_this_minute ≤ ab.config.max_blocks_per_minute
    → ab.blocks_this_minute + length (deeds_of f r ab xs) ≤ ab.config.max_blocks_per_minute
deeds_of-limit f r ab [] within le = omega (arith, le)
deeds_of-limit f r ab ((now, ip, score) ∷ xs) within le = omega (
  arith,
  length-append v.deeds (deeds_of f r v.state xs),
  first.2,
  rest (deeds_of-limit f r v.state xs),
)
  where
    v : Verdict f
    v = process_score f r ab now ip score

    first :
        (v.state.config ≡ ab.config)
        × (v.state.last_minute ≡ ab.last_minute)
        × (ab.blocks_this_minute + length v.deeds ≤ v.state.blocks_this_minute)
        × (v.state.blocks_this_minute ≤ ab.config.max_blocks_per_minute)
    first = process_score-counts f r ab now ip score within.0 le

    rest :
        (WithinMinute v.state.last_minute xs
          → v.state.blocks_this_minute ≤ v.state.config.max_blocks_per_minute
          → v.state.blocks_this_minute + length (deeds_of f r v.state xs)
            ≤ v.state.config.max_blocks_per_minute)
        → v.state.blocks_this_minute + length (deeds_of f r v.state xs)
          ≤ ab.config.max_blocks_per_minute
    rest ih =
        subst
          (λ c.
            v.state.blocks_this_minute + length (deeds_of f r v.state xs) ≤ c.max_blocks_per_minute)
          first.0
          (ih (subst (λ t. WithinMinute {f = f} t xs) (sym first.1) within.1) (rw first.0 first.3))
