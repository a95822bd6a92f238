-- ===== src/BlockManager/Lifetime.antt =====
-- How an active block comes and goes: the guards of an evaluation, and the cleanup.
use kerneleye.Base.{not, ◌&&◌, ltb, if◌then◌else◌, none, ℕ, ◌≡◌, ◌≢◌, false, some, [], arith}
use kerneleye.Base.Str.{Str}
use kerneleye.Base.Dict.{lookup, Unique, lookup-retain}
use kerneleye.Signing.{Sys}
use kerneleye.BlockManager.{
  Manager, Row, Answers, evaluate_row, consider, cleanup_expired_blocks, outlasts,
}

-- Only an address that is not active, and that the whitelist query answered not to hold, is blocked:
-- a row that does anything has passed both tests.
pub evaluate_row_guarded :
    (s : Sys) (bm : Manager) (row : Row) (a : Answers)
    → evaluate_row s bm row a ≢ (bm, [])
    → (lookup row.source_ip bm.active_blocks ≡ none) × (a.whitelisted ≡ some false)
unfolding evaluate_row consider
evaluate_row_guarded s bm row a h = ground arith

-- A cleanup at time `now` removes an address exactly if its block is not permanent and has run out
-- before `now`; every other block stays as it was, and no other appears. No address stands twice in
-- the map.
pub cleanup_expired_blocks-lookup :
    (now : ℕ) (bm : Manager) (ip : Str)
    → Unique bm.active_blocks
    → lookup ip (cleanup_expired_blocks now bm).active_blocks ≡ elim (lookup ip bm.active_blocks) [
      | none ↦ none
      | some b ↦ if not b.is_permanent && ltb b.expires_at now then none else some b
    ]
unfolding cleanup_expired_blocks outlasts
cleanup_expired_blocks-lookup now bm ip u =
    ground (arith, lookup-retain (outlasts now) ip bm.active_blocks u)
