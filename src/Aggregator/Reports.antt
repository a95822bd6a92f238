-- ===== src/Aggregator/Reports.antt =====
-- agent/aggregator_report.go: what the agent tells the backend of its blocks, and the synchronisation at its
-- start.
use kerneleye.Base.{
  ℕ, zero, suc, ◌+◌, ◌≤◌, ◌≡◌, Bool, true, false, not, Option, none, some, List, [], ◌∷◌, ◌++◌,
  ◌==◌, if◌then◌else◌, arith,
}
use kerneleye.Base.Str.{Str, str, str_eq, str_eq_iff}

-- `BlockReason` of the wire, and the kernel's number for it.
pub data BlockReason : Type 0 where
  unknown blocklist cidr rate_limit : BlockReason

unfoldable pub block_reason : ℕ → BlockReason
block_reason reason =
    if reason == 1
    then blocklist
    else if reason == 2
    then cidr
    else if reason == 3
    then rate_limit
    else unknown

-- One entry of a list of blocked addresses: the address as its text, and its kind.
pub record BlockedEntry : Type 0 where
  pub ip : Str
  pub limited : Bool

-- A report: the address, whether it is a rate limit, the reason, and the port that the history knows.
pub record Report : Type 0 where
  pub ip : Str
  pub limited : Bool
  pub reason : Str
  pub port : ℕ

unfoldable pub member : Str → List Str → Bool
member ip [] = false
member ip (j ∷ reported) = let rest = member ip reported in if str_eq j ip then true else rest

-- The loop over one source: `limits` is whether an entry counts as a rate limit, `reason` names it, `port_of` is the port of `GetContext`.
unfoldable pub report_new :
    (BlockedEntry → Bool)
    → (BlockedEntry → Str)
    → (Str → ℕ)
    → List Str
    → List BlockedEntry
    → List Str × List Report
unfolding member
report_new limits reason port_of reported [] = (reported, [])
report_new limits reason port_of reported (e ∷ es) =
    let skipped = report_new limits reason port_of reported es in
    let rest = report_new limits reason port_of (e.ip ∷ reported) es in
    if member e.ip reported then skipped else (
      rest.0,
      record { ip = e.ip; limited = limits e; reason = reason e; port = port_of e.ip } ∷ rest.1,
    )

-- Every XDP entry is a block.
abbrev pub never : BlockedEntry → Bool
never e = false

abbrev pub xdp_reason : BlockedEntry → Str
xdp_reason e = str "xdp_block"

abbrev pub ipset_reason : BlockedEntry → Str
ipset_reason e = if e.limited then str "ipset_ratelimit" else str "ipset_block"

-- `SyncBlocklistsToBackend` with a history store, on the entries of the two sources, none where a source is missing or fails.
unfoldable pub sync_blocklists_to_backend :
    (Str → ℕ) → List BlockedEntry → List BlockedEntry → List Report
unfolding report_new
sync_blocklists_to_backend port_of xdp ipset =
    let first = report_new never xdp_reason port_of [] xdp in
    let second = report_new (λ e. e.limited) ipset_reason port_of first.0 ipset in
    first.1 ++ second.1

-- `ReportBlockedIP` sends a report three times at most. A call's answer is `none` without a client; the
-- result is whether it arrived, the calls made, and whether the agent reconnects.
pub record Sent : Type 0 where
  pub arrived : Bool
  pub calls : ℕ
  pub reconnect : Bool

unfoldable pub attempt_report : ℕ → (ℕ → Option Bool) → ℕ → Sent
attempt_report zero answer attempt = record { arrived = false; calls = attempt; reconnect = true }
attempt_report (suc left) answer attempt =
    let rest = attempt_report left answer (attempt + 1) in
    elim (answer attempt) [
      | none ↦ record { arrived = false; calls = attempt; reconnect = true }
      | some ok ↦
          if ok then record { arrived = true; calls = attempt + 1; reconnect = false } else rest
    ]

unfoldable pub report_blocked_ip : (ℕ → Option Bool) → Sent
unfolding attempt_report
report_blocked_ip answer = attempt_report 3 answer 0

-- How often an address is reported.
unfoldable pub times : Str → List Report → ℕ
times ip [] = 0
times ip (r ∷ rs) = if str_eq r.ip ip then 1 + times ip rs else times ip rs

unfoldable pub listed : Str → List BlockedEntry → Bool
listed ip [] = false
listed ip (e ∷ es) = let rest = listed ip es in if str_eq e.ip ip then true else rest

abbrev pub one_if : Bool → ℕ
one_if true = 1
one_if false = 0

module _ (limits : BlockedEntry → Bool) (reason : BlockedEntry → Str) (port_of : Str → ℕ)
    (ip : Str) where
  member-report_new :
      (reported : List Str) (es : List BlockedEntry)
      → member ip (report_new limits reason port_of reported es).0
        ≡ (if member ip reported then true else listed ip es)
  unfolding member report_new listed
  member-report_new reported [] = ground arith
  member-report_new reported (e ∷ es) = ground (
    arith,
    member-report_new reported es,
    member-report_new (e.ip ∷ reported) es,
    str_eq_iff e.ip ip,
  )

  times-report_new :
      (reported : List Str) (es : List BlockedEntry)
      → times ip (report_new limits reason port_of reported es).1
        ≡ (if member ip reported then 0 else one_if (listed ip es))
  unfolding member report_new listed times
  times-report_new reported [] = ground arith
  times-report_new reported (e ∷ es) = ground (
    arith,
    times-report_new reported es,
    times-report_new (e.ip ∷ reported) es,
    str_eq_iff e.ip ip,
  )

times-append : (ip : Str) (rs qs : List Report) → times ip (rs ++ qs) ≡ times ip rs + times ip qs
unfolding times
times-append ip [] qs = omega arith
times-append ip (r ∷ rs) qs = ground (arith, times-append ip rs qs)

-- The synchronisation reports an address once if one of the sources lists it, however often they do, and
-- not at all if none does.
pub sync-times :
    (port_of : Str → ℕ) (xdp ipset : List BlockedEntry) (ip : Str)
    → times ip (sync_blocklists_to_backend port_of xdp ipset)
      ≡ one_if (if listed ip xdp then true else listed ip ipset)
unfolding sync_blocklists_to_backend member
sync-times port_of xdp ipset ip = ground (
  arith,
  times-append ip (report_new never xdp_reason port_of [] xdp).1
      (report_new (λ e. e.limited) ipset_reason port_of
        (report_new never xdp_reason port_of [] xdp).0 ipset).1,
  times-report_new never xdp_reason port_of ip [] xdp,
  times-report_new (λ e. e.limited) ipset_reason port_of ip
      (report_new never xdp_reason port_of [] xdp).0 ipset,
  member-report_new never xdp_reason port_of ip [] xdp,
)

-- A report is sent three times at most, and the agent reconnects exactly if it did not arrive.
pub report_blocked_ip-calls :
    (answer : ℕ → Option Bool)
    → ((report_blocked_ip answer).calls ≤ 3)
      × ((report_blocked_ip answer).reconnect ≡ not (report_blocked_ip answer).arrived)
unfolding report_blocked_ip attempt_report
report_blocked_ip-calls answer = ground arith
