-- ===== src/BlockManager/Matrix.antt =====
-- backend/internal/analysis/block_manager.go: `candidateScoreThreshold` and the escalation matrix of
-- `determineEnforcement`.
use kerneleye.Base.{ℕ, ◌*◌, ◌^◌, ◌||◌, Option, none, some, ltb, leb, ◌==◌, if◌then◌else◌}
use kerneleye.Base.Str.{Str, str}
use kerneleye.Base.Int.{ℤ, pos, ltb_ℤ, leb_ℤ}

-- `EnforcementType`
pub data Enforcement : Type 0 where
  rate_limit block permanent : Enforcement

-- Why the engine escalates; the text that the source formats of it is not modelled.
pub data Escalation : Type 0 where
  top_score lookup_failed : Escalation
  was_permanent : ℕ → Escalation
  prior_blocks first_offense : ℤ → ℕ → Escalation
  prior_history : ℤ → ℕ → ℕ → Escalation

-- `EnforcementDecision`; durations are nanoseconds, 0 is permanent.
pub record Decision : Type 0 where
  pub kind : Enforcement
  pub duration : ℕ
  pub threat_level : Str
  pub escalation : Escalation

-- The counts of `GetIPEnforcementHistory`.
pub record History : Type 0 where
  pub block_count : ℕ
  pub ratelimit_count : ℕ
  pub permanent_count : ℕ

abbrev pub minute : ℕ
minute = 60 * 10 ^ 9

abbrev pub hour : ℕ
hour = 60 * minute

abbrev pub min_escalation_score : ℤ
min_escalation_score = pos 30

unfoldable pub candidate_score_threshold : ℤ → ℤ
candidate_score_threshold threshold =
    if leb_ℤ threshold (pos 0)
    then min_escalation_score
    else if ltb_ℤ min_escalation_score threshold
    then min_escalation_score
    else threshold

abbrev make : Enforcement → ℕ → Str → Escalation → Decision
make kind duration level why = record {
  kind = kind;
  duration = duration;
  threat_level = level;
  escalation = why;
}

-- Score 70 to 89.
unfoldable pub fast_path : ℤ → ℕ → Decision
fast_path score blocks =
    if leb 2 blocks
    then make permanent 0 (str "malicious") (prior_blocks score blocks)
    else if blocks == 1
    then make block (24 * hour) (str "malicious") (prior_blocks score 1)
    else make block (6 * hour) (str "malicious") (first_offense score blocks)

-- Score 50 to 69.
unfoldable pub moderate_path : ℕ → ℤ → ℕ → Decision
moderate_path base score blocks =
    if leb 3 blocks
    then make permanent 0 (str "malicious") (prior_blocks score blocks)
    else if blocks == 2
    then make block (24 * hour) (str "malicious") (prior_blocks score 2)
    else if blocks == 1
    then make block (6 * hour) (str "suspicious") (prior_blocks score 1)
    else make block base (str "suspicious") (first_offense score blocks)

-- Score below 50.
unfoldable pub slow_path : ℤ → ℕ → ℕ → Decision
slow_path score blocks ratelimits =
    if leb 1 blocks || leb 2 ratelimits
    then make block (2 * hour) (str "suspicious") (prior_history score blocks ratelimits)
    else if ratelimits == 1
    then make rate_limit hour (str "suspicious") (prior_history score 0 1)
    else make rate_limit (30 * minute) (str "suspicious") (first_offense score 0)

-- `determineEnforcement`: the base duration, the row's score and level (`strings.ToLower` of it is
-- `level`), and the answer of the history query, `none` if it failed.
unfoldable pub determine_enforcement : ℕ → ℤ → Str → Option History → Decision
unfolding fast_path moderate_path slow_path
determine_enforcement base score level history =
    if leb_ℤ (pos 90) score then make permanent 0 (str "malicious") top_score else elim history [
      | none ↦ make block base level lookup_failed
      | some h ↦
          if ltb 0 h.permanent_count
          then make permanent 0 (str "malicious") (was_permanent h.permanent_count)
          else if leb_ℤ (pos 70) score
          then fast_path score h.block_count
          else if leb_ℤ (pos 50) score
          then moderate_path base score h.block_count
          else slow_path score h.block_count h.ratelimit_count
    ]
