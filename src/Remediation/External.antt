-- ===== src/Remediation/External.antt =====
-- What blocking, rate limiting and syncing make of internal addresses.
use kerneleye.Base.{◌≡◌, refl, Bool, true, false, none, some, List, [], ◌∷◌, ◌++◌, arith}
use kerneleye.Base.Str.{Str}
use kerneleye.Base.Int.{ℤ}
use kerneleye.Signing.{Sys}
use kerneleye.Remediation.{
  Net, IpSetRemediator, internal_ip, is_external_ip, is_valid_ip, block, rate_limit, temp_adds,
}

skipped :
    (n : Net) (ip : Str)
    → is_external_ip n ip ≡ false
    → (before after : List Str) → temp_adds n (before ++ ip ∷ after) ≡ temp_adds n (before ++ after)
unfolding temp_adds
skipped n ip ext [] after = rw ext refl
skipped n ip ext (x ∷ before) after = rw (skipped n ip ext before after) refl

-- On an address that is not external three calls do nothing: blocking it does nothing and reports no error,
-- rate limiting it does nothing and reports one, and syncing a list adds only the external ones.
pub internal_untouched :
    (s : Sys) (n : Net) (runs : List Str → Bool) (now : ℤ) (r : IpSetRemediator) (ip : Str)
    (duration : ℤ)
    → is_external_ip n ip ≡ false
    → is_valid_ip ip ≡ true
    → (block s n runs now r ip duration
        ≡ record { state = r; commands = []; calls = []; error = none })
      × (rate_limit s n runs r ip duration
          ≡ record { state = r; commands = []; calls = []; error = some internal_ip })
      × ((before after : List Str)
          → temp_adds n (before ++ ip ∷ after) ≡ temp_adds n (before ++ after))
unfolding block rate_limit
internal_untouched s n runs now r ip duration ext ok = (
  ground (arith, ext, ok),
  ground (arith, ext, ok),
  λ before after. skipped n ip ext before after,
)
