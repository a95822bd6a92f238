-- ===== src/Remediation/Xdp.antt =====
-- agent/remediation: the classification of the eBPF maps (types.go) and the XDP blocklist
-- (xdp_block.go, xdp_helpers.go). Whether the kernel accepts a write to a map is the argument `puts`.
use kerneleye.Base.{
  Bool, true, false, not, Option, none, some, List, [], ◌∷◌, length, ◌==◌, if◌then◌else◌,
}
use kerneleye.Base.Str.{Str, str, str_eq}
use kerneleye.Base.Dict.{Dict, insert, erase}
use kerneleye.Base.Int.{ℤ, pos, ltb_ℤ, ◌+ℤ◌}
use kerneleye.Remediation.{Net, is_external_ip, is_v4}

pub data TrustLevel : Type 0 where
  low medium high very_high : TrustLevel

-- `MapClassification`
pub record MapClassification : Type 0 where
  pub name : Str
  pub trust_level : TrustLevel
  pub frozen : Bool
  pub audit_writes : Bool

abbrev telemetry : Str → TrustLevel → MapClassification
telemetry name level = record {
  name = name;
  trust_level = level;
  frozen = false;
  audit_writes = false;
}

abbrev policy : Str → MapClassification
policy name = record { name = name; trust_level = high; frozen = false; audit_writes = true }

unfoldable pub classify_maps : List MapClassification
classify_maps =
    telemetry (str "events") medium
    ∷ telemetry (str "rate_limiter") low
    ∷ telemetry (str "global_rate_limiter") low
    ∷ telemetry (str "tcp_syn_tracker") medium
    ∷ telemetry (str "tcp_syn_tracker_v6") medium
    ∷ telemetry (str "debug_counters") low
    ∷ telemetry (str "ip_byte_counters") low
    ∷ telemetry (str "ip_byte_counters_v6") low
    ∷ telemetry (str "icmp_counters") low
    ∷ telemetry (str "ip_port_bytes") low
    ∷ policy (str "xdp_blocklist")
    ∷ policy (str "xdp_blocklist_v6")
    ∷ policy (str "xdp_cidr_blocklist")
    ∷ policy (str "xdp_rate_limit")
    ∷ telemetry (str "xdp_stats") medium
    ∷ telemetry (str "xdp_block_events") medium
    ∷ record {
      name = str "xdp_rate_config";
      trust_level = very_high;
      frozen = true;
      audit_writes = true;
    }
    ∷ []

unfoldable pub find_map : Str → List MapClassification → Option MapClassification
find_map name [] = none
find_map name (c ∷ cs) = if str_eq c.name name then some c else find_map name cs

-- `MapClassificationByName`
unfoldable pub map_classification_by_name : Str → Option MapClassification
unfolding classify_maps find_map
map_classification_by_name name = find_map name classify_maps

unfoldable pub is_frozen : Str → Bool
unfolding map_classification_by_name
is_frozen name = elim (map_classification_by_name name) [ none ↦ false | some c ↦ c.frozen ]

-- The XDP remediator: whether the program is attached, and its blocklists, by the address's text, with
-- the time since boot at which an entry ends, 0 for never. Its callback and that of the ipset remediator
-- are left out.
pub record Xdp : Type 0 where
  pub attached : Bool
  pub blocked : Dict ℤ
  pub blocked_v6 : Dict ℤ

pub data XdpError : Type 0 where
  not_attached frozen_map invalid_address write_failed : XdpError

unfoldable pub xdp_expires : ℤ → ℤ → ℤ
xdp_expires boot duration = if ltb_ℤ (pos 0) duration then boot +ℤ duration else pos 0

-- `XDPRemediator.Block`: the blocklists after it, and its error.
unfoldable pub xdp_block : Net → Bool → ℤ → Xdp → Str → ℤ → Xdp × Option XdpError
unfolding xdp_expires is_frozen
xdp_block n puts boot x ip duration =
    let expires = xdp_expires boot duration in
    if not x.attached
    then (x, some not_attached)
    else if is_frozen (str "xdp_blocklist")
    then (x, some frozen_map)
    else if is_frozen (str "xdp_blocklist_v6")
    then (x, some frozen_map)
    else if length ip == 0
    then (x, some invalid_address)
    else if not (is_external_ip n ip)
    then (x, none)
    else if not puts
    then (x, some write_failed)
    else if is_v4 n ip
    then (record x { blocked = insert (n.text ip) expires x.blocked }, none)
    else (record x { blocked_v6 = insert (n.text ip) expires x.blocked_v6 }, none)

-- `XDPRemediator.Unblock`: a missing key is no error.
unfoldable pub xdp_unblock : Net → Bool → Xdp → Str → Xdp × Option XdpError
xdp_unblock n deletes x ip =
    if not x.attached
    then (x, some not_attached)
    else if length ip == 0
    then (x, some invalid_address)
    else if not deletes
    then (x, some write_failed)
    else if is_v4 n ip
    then (record x { blocked = erase (n.text ip) x.blocked }, none)
    else (record x { blocked_v6 = erase (n.text ip) x.blocked_v6 }, none)
