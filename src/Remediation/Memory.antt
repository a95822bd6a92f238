-- ===== src/Remediation/Memory.antt =====
-- What the ipset remediator remembers of the blocks it made.
use kerneleye.Base.{◌≡◌, ◌≢◌, Bool, true, false, none, List, [], ◌∷◌, arith, if◌then◌else◌}
use kerneleye.Base.Str.{Str, str_eq, str_eq_refl}
use kerneleye.Base.Dict.{lookup-insert, lookup-erase}
use kerneleye.Base.Int.{ℤ, pos, ltb_ℤ, leb_ℤ, ◌+ℤ◌}
use kerneleye.Signing.{Sys}
use kerneleye.Remediation.{
  Net, ratelimit, blocklist, IpSetRemediator, is_external_ip, expires_of, far_future, block,
  add_block, unblock, is_blocked, unblock_args, set_name,
}

-- A block that was made without error of an external address is remembered until its duration has passed
-- since it was made and no longer, or until the year 9999 if the duration is not positive, and the
-- remediator remembers of every other address what it did before.
pub block-is_blocked :
    (s : Sys) (n : Net) (runs : List Str → Bool) (now later : ℤ) (r : IpSetRemediator)
    (ip other : Str) (duration : ℤ)
    → is_external_ip n ip ≡ true
    → (block s n runs now r ip duration).error ≡ none
    → (is_blocked n later (block s n runs now r ip duration).state other).0 ≡ (
        if str_eq (n.text ip) (n.text other)
        then leb_ℤ later (if ltb_ℤ (pos 0) duration then now +ℤ duration else far_future)
        else (is_blocked n later r other).0)
unfolding block add_block is_blocked expires_of
block-is_blocked s n runs now later r ip other duration ext ok = ground (
  arith,
  ext,
  ok,
  lookup-insert (n.text ip) (n.text other) (expires_of now duration) r.blocked_ips,
)

-- Taking an address off the rate limits makes the remediator forget that it is blocked, though the one
-- command that this runs deletes the address from the set of rate limits and not from that of blocks.
pub unblock_rate_limit-forgets :
    (n : Net) (runs : List Str → Bool) (later : ℤ) (r : IpSetRemediator) (ip : Str)
    → (unblock n runs r ip ratelimit).error ≡ none
    → ((is_blocked n later (unblock n runs r ip ratelimit).state ip).0 ≡ false)
      × ((unblock n runs r ip ratelimit).commands ≡ unblock_args n ip ratelimit ∷ [])
      × (unblock_args n ip ratelimit ≢ unblock_args n ip blocklist)
unfolding unblock unblock_args is_blocked set_name
unblock_rate_limit-forgets n runs later r ip ok = (
  ground (arith, ok, lookup-erase (n.text ip) (n.text ip) r.blocked_ips, str_eq_refl (n.text ip)),
  ground (arith, ok),
  ground arith,
)
