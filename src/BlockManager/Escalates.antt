-- ===== src/BlockManager/Escalates.antt =====
-- The escalation matrix only escalates.
use kerneleye.Base.{◌↔◌, ℕ, ◌*◌, ◌≤◌, ◌<◌, ◌≡◌, ◌⊎◌, Option, none, some, arith}
use kerneleye.Base.Str.{Str}
use kerneleye.Base.Int.{ℤ, pos, ◌≤ℤ◌}
use kerneleye.BlockManager.Matrix.{
  Enforcement, rate_limit, block, permanent, Decision, History, hour, determine_enforcement,
}

abbrev pub rank : Enforcement → ℕ
rank rate_limit = 0
rank block = 1
rank permanent = 2

-- A weaker kind of action, or the same kind for no longer.
abbrev pub AtMost : Decision → Decision → Type 0
AtMost d e = (rank d.kind < rank e.kind) ⊎ ((d.kind ≡ e.kind) × (d.duration ≤ e.duration))

-- No count of the one history is above that of the other.
pub record Within (h k : History) : Type 0 where
  pub blocks : h.block_count ≤ k.block_count
  pub ratelimits : h.ratelimit_count ≤ k.ratelimit_count
  pub permanents : h.permanent_count ≤ k.permanent_count

-- At one score a longer record never earns a milder decision, if the base duration is positive and at
-- most six hours (the backend runs with one).
pub determine_enforcement-escalates :
    (base : ℕ) (score : ℤ) (level : Str) (h k : History)
    → 0 < base
    → base ≤ 6 * hour
    → Within h k
    → AtMost
        (determine_enforcement base score level (some h))
        (determine_enforcement base score level (some k))
unfolding determine_enforcement
determine_enforcement-escalates base score level h k b0 b w = ground arith

-- With one record a higher score never earns a milder decision, if the base duration is from two to
-- six hours.
pub determine_enforcement_mono :
    (base : ℕ) (s t : ℤ) (level : Str) (h : History)
    → 2 * hour ≤ base
    → base ≤ 6 * hour
    → s ≤ℤ t
    → AtMost
        (determine_enforcement base s level (some h))
        (determine_enforcement base t level (some h))
unfolding determine_enforcement
determine_enforcement_mono base s t level h lo hi le = ground arith

-- With a positive base duration below two hours it can: an address that has been rate limited twice and never
-- blocked gets a shorter block at any score from 50 to 69 than at any score below 50.
pub determine_enforcement-inverts :
    (base : ℕ) (s t : ℤ) (level : Str) (h : History)
    → 0 < base
    → base < 2 * hour
    → pos 50 ≤ℤ t
    → t ≤ℤ pos 69
    → s ≤ℤ pos 49
    → h.block_count ≡ 0
    → 2 ≤ h.ratelimit_count
    → h.permanent_count ≡ 0
    → ¬ AtMost
        (determine_enforcement base s level (some h))
        (determine_enforcement base t level (some h))
unfolding determine_enforcement
determine_enforcement-inverts base s t level h b t50 t69 s49 blocks limits perm = ground arith

-- The kind of action follows the duration: a decision is permanent exactly when it has no end, if
-- the base duration is positive.
pub determine_enforcement-permanent_iff :
    (base : ℕ) (score : ℤ) (level : Str) (h : Option History)
    → 0 < base
    → let d = determine_enforcement base score level h in (d.kind ≡ permanent) ↔ (d.duration ≡ 0)
unfolding determine_enforcement
determine_enforcement-permanent_iff base score level none b = ground arith
determine_enforcement-permanent_iff base score level (some h) b = ground arith
