-- ===== src/AutoBlocker.antt =====
-- agent/remediation/auto_blocker.go: blocks by threat score on the agent. The remediator that it acts on
-- is the interface `Remediator`; a duration is a number of nanoseconds.
pub mod Guards
pub mod Storm
use kerneleye.Base.{
  ℕ, zero, suc, ◌+◌, ◌*◌, ◌/◌, ◌%◌, ◌^◌, Bool, true, false, not, ◌&&◌, ◌||◌, Option, none, some,
  List, [], ◌∷◌, length, ltb, leb, ◌==◌, if◌then◌else◌,
}
use kerneleye.Base.Str.{Str}
use kerneleye.Base.Dict.{Dict, lookup, contains, insert, erase, retain}
use kerneleye.Base.Int.{ℤ, pos, ◌-ℤ◌, ltb_ℤ, leb_ℤ}
use kerneleye.Float.{Float, num}
use kerneleye.Scoring.{ThreatScore, is_outbound}

-- `AutoBlockerConfig`; the safelist's ranges are parsed, and MaxBlockedIPs is read by nothing.
pub record AutoBlockerConfig (f : Float) : Type 0 where
  pub enabled : Bool
  pub block_threshold : ℤ
  pub base_block_duration : ℤ
  pub max_block_duration : ℤ
  pub escalation_multiplier : f.F
  pub max_blocks_per_minute : ℕ

pub record BlockEvent : Type 0 where
  pub first_seen : ℤ
  pub count : ℕ
  pub duration : ℤ
  pub last_score : ℤ

-- `AutoBlocker`
pub record AutoBlocker (f : Float) : Type 0 where
  pub config : AutoBlockerConfig f
  pub history : Dict BlockEvent
  pub blocks_this_minute : ℕ
  pub last_minute : ℤ
  pub backend_rate_limits : Dict ℤ

-- What the auto-blocker asks: net.ParseIP and the safelist's ranges (library code), and the remediator's
-- answers: whether an address is blocked, and whether acting on it succeeds.
pub record Remediator : Type 0 where
  pub parse_ip : Str → Option Str
  pub safelisted : Str → Bool
  pub is_blocked : Str → Bool
  pub block_succeeds : Str → Bool
  pub rate_limit_succeeds : Str → Bool

pub data Deed : Type 0 where
  blocks rate_limits : Str → ℤ → Deed

pub data AutoError : Type 0 where
  invalid_ip rate_limit_failed block_failed : AutoError

abbrev pub minute : ℤ
minute = pos (60 * 10 ^ 9)

unfoldable pub min_duration : ℤ → ℤ → ℤ
min_duration a b = if ltb_ℤ a b then a else b

-- `multiplier` after its loop.
unfoldable pub escalate : (f : Float) → f.F → f.F → ℕ → f.F
escalate f by m zero = m
escalate f by m (suc n) = escalate f by (f.mul m by) n

unfoldable pub calculate_duration : (f : Float) → AutoBlocker f → Str → ThreatScore f → ℤ
unfolding min_duration escalate
calculate_duration f ab ip score =
    let base = f.of_int ab.config.base_block_duration in
    min_duration
      (elim (lookup ip ab.history) [
        | none ↦
            if ltb_ℤ (pos 100) score.score
            then f.trunc (f.mul base (f.div (f.of_int score.score) (num f 100)))
            else ab.config.base_block_duration
        | some e ↦
            f.trunc (f.mul base (escalate f ab.config.escalation_multiplier (num f 1) e.count))
      ])
      ab.config.max_block_duration

-- `cleanupHistoryLocked`: entries from more than thirty days ago go.
unfoldable pub cleanup_history : ℤ → Dict BlockEvent → Dict BlockEvent
cleanup_history now =
    retain (λ ip e. not (ltb_ℤ e.first_seen (now -ℤ pos (30 * 24 * 3600 * 10 ^ 9))))

-- `recordBlock`
unfoldable pub block_event : Option BlockEvent → ℤ → ℤ → ℤ → BlockEvent
block_event none now duration score = record {
  first_seen = now;
  count = 1;
  duration = duration;
  last_score = score;
}
block_event (some e) now duration score = record e {
  count = e.count + 1;
  duration = duration;
  last_score = score;
}

unfoldable pub record_block :
    (f : Float) → AutoBlocker f → ℤ → Str → ThreatScore f → ℤ → AutoBlocker f
unfolding cleanup_history block_event
record_block f ab now ip score duration =
    let history =
      insert ip (block_event (lookup ip ab.history) now duration score.score) ab.history in
    record ab {
      history = if length history % 100 == 0 then cleanup_history now history else history;
    }

-- `checkRateLimit`
unfoldable pub roll_minute : (f : Float) → AutoBlocker f → ℤ → AutoBlocker f
roll_minute f ab now =
    if ltb_ℤ minute (now -ℤ ab.last_minute)
    then record ab { blocks_this_minute = 0; last_minute = now }
    else ab

unfoldable pub check_rate_limit : (f : Float) → AutoBlocker f → ℤ → Bool × AutoBlocker f
unfolding roll_minute
check_rate_limit f ab now =
    let ab' = roll_minute f ab now in
    if leb ab.config.max_blocks_per_minute ab'.blocks_this_minute
    then (false, ab')
    else (true, record ab' { blocks_this_minute = ab'.blocks_this_minute + 1 })

-- What `ProcessScore` returns and does; a deed is a call of the remediator, which may fail.
pub record Verdict (f : Float) : Type 0 where
  pub state : AutoBlocker f
  pub deeds : List Deed
  pub reported : Bool
  pub error : Option AutoError

abbrev pub idle : (f : Float) → AutoBlocker f → Option AutoError → Verdict f
idle f ab e = record { state = ab; deeds = []; reported = false; error = e }

-- The guards before the address is parsed.
unfoldable pub is_candidate : (f : Float) → AutoBlocker f → ThreatScore f → Bool
is_candidate f ab score =
    ab.config.enabled
    && not (is_outbound score.direction)
    && not (ltb_ℤ score.score ab.config.block_threshold)
    && not (f.lt score.confidence (f.decimal 8 1))

-- The deed itself, at a duration: the backend's wish for a rate limit goes before the block.
unfoldable pub act :
    (f : Float) → Remediator → AutoBlocker f → ℤ → Str → Str → ThreatScore f → ℤ → Verdict f
unfolding record_block
act f r ab now ip parsed score duration =
    if contains ip ab.backend_rate_limits
    then record {
      state = ab;
      deeds = rate_limits parsed duration ∷ [];
      reported = false;
      error = if r.rate_limit_succeeds parsed then none else some rate_limit_failed;
    }
    else if r.block_succeeds parsed
    then record {
      state = record_block f ab now ip score duration;
      deeds = blocks parsed duration ∷ [];
      reported = true;
      error = none;
    }
    else record {
      state = ab;
      deeds = blocks parsed duration ∷ [];
      reported = false;
      error = some block_failed;
    }

-- From the check of the rate of blocks on.
unfoldable pub limited :
    (f : Float) → Remediator → AutoBlocker f → ℤ → Str → Str → ThreatScore f → Verdict f
unfolding check_rate_limit act calculate_duration
limited f r ab now ip parsed score =
    let (allowed, ab') = check_rate_limit f ab now in
    if allowed
    then act f r ab' now ip parsed score (calculate_duration f ab' ip score)
    else idle f ab' none

-- `ProcessScore`; where there is a callback, it is called when `reported`.
unfoldable pub process_score :
    (f : Float) → Remediator → AutoBlocker f → ℤ → Str → ThreatScore f → Verdict f
unfolding is_candidate limited
process_score f r ab now ip score =
    if not (is_candidate f ab score) then idle f ab none else elim (r.parse_ip ip) [
      | none ↦ idle f ab (some invalid_ip)
      | some parsed ↦
          if r.safelisted parsed || r.is_blocked parsed
          then idle f ab none
          else limited f r ab now ip parsed score
    ]

-- `Unblock`: the remediator's answer, then the history goes.
unfoldable pub unblock_by_hand :
    (f : Float) → Remediator → Bool → AutoBlocker f → Str → AutoBlocker f × Bool
unblock_by_hand f r unblocks ab ip = elim (r.parse_ip ip) [
  | none ↦ (ab, false)
  | some parsed ↦
      if unblocks then (record ab { history = erase ip ab.history }, true) else (ab, false)
]

-- `MarkBackendRateLimit`
unfoldable pub mark_backend_rate_limit : (f : Float) → AutoBlocker f → ℤ → Str → AutoBlocker f
mark_backend_rate_limit f ab now ip = record ab {
  backend_rate_limits = insert ip now ab.backend_rate_limits;
}
