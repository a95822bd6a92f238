-- ===== src/Remediation.antt =====
-- agent/remediation: the ipset remediator (ipset_block.go, ipset_state.go) and the external-address test
-- of xdp_helpers.go. A command is its list of words; whether it succeeds is the function `runs`.
pub mod Memory
pub mod External
pub mod Xdp
pub mod Hybrid
pub mod Setup
pub mod Persist
pub mod Cidr
use kerneleye.Base.{
  ℕ, ◌+◌, ◌*◌, ◌/◌, ◌^◌, Bool, true, false, not, ◌&&◌, ◌||◌, Option, none, some, List, [], ◌∷◌,
  ◌++◌, map, length, ltb, ◌==◌, if◌then◌else◌,
}
use kerneleye.Base.Str.{Str, str}
use kerneleye.Base.Dict.{Dict, lookup, insert, erase}
use kerneleye.Base.Int.{ℤ, pos, negsuc, ◌-ℤ◌, ◌+ℤ◌, ltb_ℤ, eqb_ℤ}
use kerneleye.Signing.{Sys}

-- The methods of net.IP that the code calls, on the address's bytes; `none` is nil.
pub record Net : Type 0 where
  pub to4 : Str → Option Str
  pub to16 : Str → Option Str
  pub text : Str → Str
  pub is_loopback : Str → Bool
  pub is_link_local_unicast : Str → Bool
  pub is_link_local_multicast : Str → Bool
  pub is_private : Str → Bool

pub data BlockType : Type 0 where
  unspecified blocklist ratelimit cidr : BlockType

pub data Action : Type 0 where
  action_block action_rate_limit : Action

-- `isExternalIP`
unfoldable pub is_external_v6 : Str → Bool
is_external_v6 [] = true
is_external_v6 (b ∷ bs) = not (b / 2 == 126) && not (b == 255)

unfoldable pub is_external_ip : Net → Str → Bool
unfolding is_external_v6
is_external_ip n ip =
    if n.is_loopback ip || n.is_link_local_unicast ip || n.is_link_local_multicast ip
    then false
    else elim (n.to4 ip) [
      | some ip4 ↦ not (n.is_private ip4)
      | none ↦ elim (n.to16 ip) [ none ↦ false | some ip6 ↦ is_external_v6 ip6 ]
    ]

-- `IPSetRemediator`: when the addresses blocked in memory expire, in nanoseconds.
pub record IpSetRemediator : Type 0 where
  pub has_on_block : Bool
  pub blocked_ips : Dict ℤ

pub data Error : Type 0 where
  invalid_ip internal_ip : Error
  runner_failed : List Str → Error

-- What a call runs and calls back, and its error if it has one.
pub record Result : Type 0 where
  pub state : IpSetRemediator
  pub commands : List (List Str)
  pub calls : List (Action × Str × ℤ)
  pub error : Option Error

-- `validateIP` of the ipset remediator.
unfoldable pub is_valid_ip : Str → Bool
is_valid_ip ip = length ip == 4 || length ip == 16

abbrev pub is_v4 : Net → Str → Bool
is_v4 n ip = elim (n.to4 ip) [ none ↦ false | some _ ↦ true ]

-- The names of the sets.
unfoldable pub set_name : BlockType → Bool → Str
set_name ratelimit true = str "kernel_eye_ratelimit"
set_name ratelimit false = str "kernel_eye_ratelimit_v6"
set_name cidr true = str "kerneleye_block_cidr"
set_name cidr false = str "kerneleye_block_cidr_v6"
set_name unspecified true = str "kernel_eye_block"
set_name unspecified false = str "kernel_eye_block_v6"
set_name blocklist true = str "kernel_eye_block"
set_name blocklist false = str "kernel_eye_block_v6"

-- `int(duration.Seconds())`
unfoldable pub trunc_seconds : ℤ → ℤ
trunc_seconds (pos n) = pos (n / 10 ^ 9)
trunc_seconds (negsuc n) = pos 0 -ℤ pos ((n + 1) / 10 ^ 9)

-- The last second of the year 9999, in nanoseconds since 1970: a block without end.
abbrev pub far_future : ℤ
far_future = pos (253402300799 * 10 ^ 9)

abbrev pub refuse : IpSetRemediator → Error → Result
refuse r e = record { state = r; commands = []; calls = []; error = some e }

-- The `ipset add` of `Block`.
unfoldable pub block_args : Sys → Net → Str → ℤ → List Str
unfolding set_name trunc_seconds
block_args s n ip duration =
    str "ipset"
    ∷ str "add"
    ∷ set_name blocklist (is_v4 n ip)
    ∷ n.text ip
    ∷ ((if ltb_ℤ (pos 0) (trunc_seconds duration)
          then str "timeout" ∷ s.format_int (trunc_seconds duration) ∷ []
          else [])
        ++ (str "-exist" ∷ []))

unfoldable pub expires_of : ℤ → ℤ → ℤ
expires_of now duration = if ltb_ℤ (pos 0) duration then now +ℤ duration else far_future

-- `Block` once the address has passed the tests.
unfoldable pub add_block : Sys → Net → (List Str → Bool) → ℤ → IpSetRemediator → Str → ℤ → Result
unfolding block_args expires_of
add_block s n runs now r ip duration =
    let args = block_args s n ip duration in
    if not (runs args)
    then record { state = r; commands = args ∷ []; calls = []; error = some (runner_failed args) }
    else record {
      state = record r { blocked_ips = insert (n.text ip) (expires_of now duration) r.blocked_ips };
      commands = args ∷ [];
      calls = if r.has_on_block then (action_block, ip, duration) ∷ [] else [];
      error = none;
    }

unfoldable pub block : Sys → Net → (List Str → Bool) → ℤ → IpSetRemediator → Str → ℤ → Result
unfolding is_valid_ip is_external_ip add_block
block s n runs now r ip duration =
    if not (is_valid_ip ip)
    then refuse r invalid_ip
    else if not (is_external_ip n ip)
    then record { state = r; commands = []; calls = []; error = none }
    else add_block s n runs now r ip duration

-- `Unblock`
unfoldable pub unblock_args : Net → Str → BlockType → List Str
unfolding set_name
unblock_args n ip kind =
    str "ipset" ∷ str "del" ∷ set_name kind (is_v4 n ip) ∷ n.text ip ∷ str "-exist" ∷ []

unfoldable pub unblock : Net → (List Str → Bool) → IpSetRemediator → Str → BlockType → Result
unfolding is_valid_ip unblock_args
unblock n runs r ip kind =
    let args = unblock_args n ip kind in
    if not (is_valid_ip ip)
    then refuse r invalid_ip
    else if not (runs args)
    then record { state = r; commands = args ∷ []; calls = []; error = some (runner_failed args) }
    else record {
      state = record r { blocked_ips = erase (n.text ip) r.blocked_ips };
      commands = args ∷ [];
      calls = [];
      error = none;
    }

-- `RateLimit`
unfoldable pub rate_limit_args : Sys → Net → Str → ℤ → List Str
unfolding set_name trunc_seconds
rate_limit_args s n ip duration =
    let seconds = trunc_seconds duration in
    str "ipset"
    ∷ str "add"
    ∷ set_name ratelimit (is_v4 n ip)
    ∷ n.text ip
    ∷ str "timeout"
    ∷ s.format_int (if eqb_ℤ seconds (pos 0) then pos 600 else seconds)
    ∷ str "-exist"
    ∷ []

unfoldable pub rate_limit : Sys → Net → (List Str → Bool) → IpSetRemediator → Str → ℤ → Result
unfolding is_valid_ip is_external_ip rate_limit_args
rate_limit s n runs r ip duration =
    let args = rate_limit_args s n ip duration in
    if not (is_valid_ip ip)
    then refuse r invalid_ip
    else if not (is_external_ip n ip)
    then refuse r internal_ip
    else if not (runs args)
    then record { state = r; commands = args ∷ []; calls = []; error = some (runner_failed args) }
    else record {
      state = r;
      commands = args ∷ [];
      calls = if r.has_on_block then (action_rate_limit, ip, duration) ∷ [] else [];
      error = none;
    }

-- `IsBlocked` at a time: an entry that has expired is deleted.
unfoldable pub is_blocked : Net → ℤ → IpSetRemediator → Str → Bool × IpSetRemediator
is_blocked n now r ip = elim (lookup (n.text ip) r.blocked_ips) [
  | none ↦ (false, r)
  | some expires ↦
      if ltb_ℤ expires now
      then (false, record r { blocked_ips = erase (n.text ip) r.blocked_ips })
      else (true, r)
]

-- The commands of `SyncBlocklist` up to the swaps, whose failures it ignores.
unfoldable pub temp_adds : Net → List Str → List (List Str)
unfolding is_external_ip
temp_adds n [] = []
temp_adds n (ip ∷ ips) =
    if is_external_ip n ip
    then (str "ipset"
        ∷ str "add"
        ∷ (if is_v4 n ip then str "kernel_eye_block_temp" else str "kernel_eye_block_v6_temp")
        ∷ n.text ip
        ∷ str "-exist"
        ∷ [])
      ∷ temp_adds n ips
    else temp_adds n ips
