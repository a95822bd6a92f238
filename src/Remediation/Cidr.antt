-- ===== src/Remediation/Cidr.antt =====
-- agent/remediation: networks (ipset_block.go, xdp_block.go, xdp_helpers.go), the clean-up of the XDP maps
-- (xdp_cleanup.go), their rate limit (xdp_rate.go) and their counters.
use kerneleye.Base.{
  ◌<◌, ℕ, ◌+◌, ◌*◌, ◌%◌, ◌^◌, ◌≡◌, Bool, true, false, not, ◌&&◌, Option, none, some, List, [], ◌∷◌,
  ◌++◌, ltb, if◌then◌else◌, arith,
}
use kerneleye.Base.Str.{str_eq_refl, Str, str}
use kerneleye.Base.Int.{ℤ, pos, ltb_ℤ}
use kerneleye.Base.Dict.{Dict, erase}
use kerneleye.Signing.{Sys}
use kerneleye.Remediation.{trunc_seconds}
use kerneleye.Remediation.Setup.{Command, Ran, run_all, match_set, chain_name}

abbrev pub cidr_set : Bool → Str
cidr_set true = str "kerneleye_block_cidr_v6"
cidr_set false = str "kerneleye_block_cidr"

unfoldable pub insert_drop : Str → Str → Command
insert_drop tables set =
    tables ∷ str "-I" ∷ chain_name ∷ str "1" ∷ match_set set (str "-j" ∷ str "DROP" ∷ [])

-- The commands of the ipset remediator's `BlockCIDR` for a network that was parsed; `listed` and
-- `listed_v6` are whether the chains name the set. Each command must succeed.
unfoldable pub cidr_commands : Sys → Bool → Bool → Bool → Str → ℤ → List Command
unfolding insert_drop trunc_seconds
cidr_commands s v6 listed listed_v6 network duration =
    (str "ipset"
        ∷ str "create"
        ∷ cidr_set v6
        ∷ str "hash:net"
        ∷ str "timeout"
        ∷ str "0"
        ∷ str "-exist"
        ∷ (if v6 then str "family" ∷ str "inet6" ∷ [] else []))
      ∷ (if listed then [] else insert_drop (str "iptables") (cidr_set v6) ∷ [])
    ++ (if v6 && not listed_v6 then insert_drop (str "ip6tables") (cidr_set v6) ∷ [] else [])
    ++ (str "ipset"
        ∷ str "add"
        ∷ cidr_set v6
        ∷ network
        ∷ str "-exist"
        ∷ (if ltb_ℤ (pos 0) (trunc_seconds duration)
            then str "timeout" ∷ s.format_int (trunc_seconds duration) ∷ []
            else []))
      ∷ []

-- `parse` is net.ParseCIDR: whether the network is of IPv6; `none` is an error, which runs nothing.
unfoldable pub block_cidr :
    Sys → (Command → Bool) → (Str → Option Bool) → Bool → Bool → Str → ℤ → Ran
unfolding run_all cidr_commands
block_cidr s runs parse listed listed_v6 network duration = elim (parse network) [
  | none ↦ ([], true)
  | some v6 ↦ run_all runs (cidr_commands s v6 listed listed_v6 network duration)
]

-- `lpmKeyV4`
pub record LpmKey : Type 0 where
  pub prefix_len : ℕ
  pub addr : ℕ

-- `parseCIDRv4` on what ParseCIDR, To4 and Mask give: the prefix and the four bytes of the masked address.
unfoldable pub lpm_key : ℕ → ℕ → ℕ → ℕ → ℕ → LpmKey
lpm_key prefix a b c d = record {
  prefix_len = prefix;
  addr = a * 2 ^ 24 + b * 2 ^ 16 + c * 2 ^ 8 + d;
}

-- Whether an entry of an XDP blocklist has run out; 0 is never.
unfoldable pub is_expired : ℕ → ℕ → Bool
is_expired now expires = ltb 0 expires && ltb expires now

-- `cleanupMap`, and the same for IPv6 and for networks: each entry that the iteration met and that has run
-- out by CLOCK_BOOTTIME is deleted by its key, whatever the map `m` holds under it by then, since no lock
-- keeps a block from being renewed meanwhile. `deletes` is whether a deletion works.
unfoldable pub cleanup_map : (Str → Bool) → ℕ → Dict ℕ → Dict ℕ → Dict ℕ
unfolding is_expired
cleanup_map deletes boot [] m = m
cleanup_map deletes boot ((k, e) ∷ met) m =
    cleanup_map deletes boot met (if is_expired boot e && deletes k then erase k m else m)

-- The three maps of `cleanupExpiredEntries`.
pub record XdpMaps : Type 0 where
  pub blocklist : Dict ℕ
  pub blocklist_v6 : Dict ℕ
  pub cidr_blocklist : Dict ℕ

-- `cleanupExpiredEntries` on what its iterations meet; it does nothing while the program is not attached.
unfoldable pub cleanup_expired_entries : Bool → (Str → Bool) → ℕ → XdpMaps → XdpMaps → XdpMaps
unfolding cleanup_map
cleanup_expired_entries attached deletes boot met x =
    if attached
    then record {
      blocklist = cleanup_map deletes boot met.blocklist x.blocklist;
      blocklist_v6 = cleanup_map deletes boot met.blocklist_v6 x.blocklist_v6;
      cidr_blocklist = cleanup_map deletes boot met.cidr_blocklist x.cidr_blocklist;
    }
    else x

-- A block that was renewed after the iteration met its entry is deleted with the old one.
pub cleanup_map-renewed :
    (boot old renewed : ℕ) (k : Str)
    → 0 < old
    → old < boot
    → cleanup_map (λ j. true) boot ((k, old) ∷ []) ((k, renewed) ∷ []) ≡ []
unfolding cleanup_map is_expired erase
cleanup_map-renewed boot old renewed k p q = ground (arith, p, q, str_eq_refl k)

-- The configuration map of the rate limit: what it holds, and whether it is frozen.
pub record RateConfig : Type 0 where
  pub limits : Option (ℕ × ℕ × ℕ)
  pub frozen : Bool

pub data RateError : Type 0 where
  not_attached not_available put_failed : RateError

-- `SetRateLimit`; `puts` and `freezes` are whether the kernel does, and `none` is no map.
unfoldable pub set_rate_limit :
    Bool → Bool → Bool → Option RateConfig → ℕ → ℕ → ℕ → Option RateConfig × Option RateError
set_rate_limit attached puts freezes none pps bps block_ns =
    (none, some (if attached then not_available else not_attached))
set_rate_limit attached puts freezes (some c) pps bps block_ns =
    if not attached
    then (some c, some not_attached)
    else if c.frozen
    then (some c, none)
    else if puts
    then (some (record { limits = some (pps, bps, block_ns); frozen = freezes }), none)
    else (some c, some put_failed)

-- `XDPStats`
pub record XdpStats : Type 0 where
  pub passed : ℕ
  pub dropped : ℕ
  pub errors : ℕ
  pub rate_limited : ℕ

-- The sum over the processors, as uint64.
unfoldable pub sum_counters : List ℕ → ℕ
sum_counters [] = 0
sum_counters (v ∷ vs) = (v + sum_counters vs) % 2 ^ 64

-- The sum under one index; one that cannot be read counts nothing.
unfoldable pub counted_at : (ℕ → Option (List ℕ)) → ℕ → ℕ
unfolding sum_counters
counted_at lookup_all i = elim (lookup_all i) [ none ↦ 0 | some vs ↦ sum_counters vs ]

-- `aggregateStats`, of packets or of bytes.
unfoldable pub aggregate_stats : (ℕ → Option (List ℕ)) → XdpStats
unfolding counted_at
aggregate_stats lookup_all = record {
  passed = counted_at lookup_all 0;
  dropped = counted_at lookup_all 1;
  errors = counted_at lookup_all 2;
  rate_limited = counted_at lookup_all 3;
}
