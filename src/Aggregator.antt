-- ===== src/Aggregator.antt =====
-- agent/types.go, agent/aggregator.go and agent/aggregator_event.go: an address's statistics, and which
-- events are counted under which address and port. The whitelist (agent/aggregator_whitelist.go) is here
-- too; counting, reports and reconnection are the children.
pub mod Ports
pub mod Events
pub mod Counting
pub mod Reconnect
pub mod Reports
use kerneleye.Base.{
  ℕ, ◌+◌, ◌/◌, ◌%◌, Bool, true, false, not, ◌&&◌, ◌||◌, Option, none, some, List, [], ◌∷◌, length,
  ltb, leb, ◌==◌, if◌then◌else◌,
}
use kerneleye.Base.Str.{Str, str, str_eq, starts_with}
use kerneleye.Base.Int.{ℤ, pos, ltb_ℤ, leb_ℤ, pos_part}
use kerneleye.Base.Dict.{Dict, lookup, contains, insert, erase}
use kerneleye.SafeStats.{SafeStats}

abbrev pub dir_inbound : ℕ
dir_inbound = 0

abbrev pub dir_outbound : ℕ
dir_outbound = 1

-- `Event`; the fields that no code reads are left out.
pub record Event : Type 0 where
  pub timestamp : ℕ
  pub tgid : ℕ
  pub lport : ℕ
  pub rport : ℕ
  pub family : ℕ
  pub protocol : ℕ
  pub flags : ℕ
  pub direction : ℕ
  pub saddr : Str
  pub comm : Str

-- `IPStats`, less `FirstSeen`, which the statistics map keeps beside it. A map from ports is a list of
-- pairs, a set of ports a list; times are nanoseconds.
pub record EventStats : Type 0 where
  pub protocol : ℕ
  pub syn_count : ℕ
  pub ack_count : ℕ
  pub failed_handshakes : ℕ
  pub unique_ports : List ℕ
  pub port_counts : List (ℕ × ℕ)
  pub port_hits : List (ℕ × ℕ)
  pub bytes_in : ℕ
  pub bytes_out : ℕ
  pub icmp_packets_in : ℕ
  pub icmp_packets_out : ℕ
  pub port_bytes_in : List (ℕ × ℕ)
  pub port_bytes_out : List (ℕ × ℕ)
  pub direction : ℕ
  pub local_ip : Str
  pub last_seen : ℕ
  pub process_name : Str

-- The fields of `Aggregator` that the handling of events reads and writes.
pub record Aggregator : Type 0 where
  pub stats : SafeStats EventStats
  pub whitelisted_ips : Dict Bool
  pub server_ips : Dict Bool
  pub control_plane_ips : Dict Bool
  pub control_plane_port : ℕ
  pub cached_public_ip : Str
  pub agent_pid : ℕ
  pub boot_time : ℕ
  pub ephemeral_port_min : ℕ
  pub ephemeral_port_max : ℕ

-- What the agent asks of packages net and strings: the text of an address (`IP.String`), `ParseIP`
-- followed by it, and `TrimSpace`.
pub record Texts : Type 0 where
  pub ip_text : Str → Str
  pub parse_text : Str → Option Str
  pub trim_space : Str → Str

-- `m[k]` of a map of Booleans: false if it is not there.
abbrev pub is_set : Str → Dict Bool → Bool
is_set k m = elim (lookup k m) [ none ↦ false | some b ↦ b ]

-- `initEphemeralPortRange` on the two numbers of the file; `none` if it cannot be read.
unfoldable pub init_ephemeral_port_range : Option (ℤ × ℤ) → Aggregator → Aggregator
init_ephemeral_port_range none a = a
init_ephemeral_port_range (some (lo, hi)) a =
    if ltb_ℤ (pos 0) lo && ltb_ℤ (pos 0) hi && ltb_ℤ lo hi && leb_ℤ hi (pos 65535)
    then record a { ephemeral_port_min = pos_part lo; ephemeral_port_max = pos_part hi }
    else a

unfoldable pub is_ephemeral_port : Aggregator → ℕ → Bool
is_ephemeral_port a port = leb a.ephemeral_port_min port && leb port a.ephemeral_port_max

unfoldable pub tracked_port_for_event : Aggregator → Event → ℕ
unfolding is_ephemeral_port
tracked_port_for_event a event =
    if event.direction == dir_outbound
    then (if event.rport == 0 then event.lport else event.rport)
    else if not (event.lport == 0) && not (is_ephemeral_port a event.lport)
    then event.lport
    else event.rport

-- What stands before the first NUL.
unfoldable pub until_nul : Str → Str
until_nul [] = []
until_nul (c ∷ s) = let rest = c ∷ until_nul s in if c == 0 then [] else rest

unfoldable pub event_comm_name : Texts → Event → Str
unfolding until_nul
event_comm_name t event = t.trim_space (until_nul event.comm)

-- `remote` is the text of the address.
unfoldable pub is_control_plane_traffic : Aggregator → Event → Str → Bool
is_control_plane_traffic a event remote =
    if length a.control_plane_ips == 0
    then false
    else if not (is_set remote a.control_plane_ips)
    then false
    else if event.direction == dir_outbound
    then true
    else not (a.control_plane_port == 0) && event.rport == a.control_plane_port

unfoldable pub is_agent_self_traffic : Texts → Aggregator → Event → Bool
unfolding event_comm_name
is_agent_self_traffic t a event =
    if not (a.agent_pid == 0) && event.tgid == a.agent_pid
    then true
    else str_eq (event_comm_name t event) (str "kerneleye-agent")
      || str_eq (event_comm_name t event) (str "kerneleye")

unfoldable pub is_host_self_ip : Aggregator → Str → Bool
is_host_self_ip a ip =
    if ltb 0 (length a.cached_public_ip) && str_eq ip a.cached_public_ip
    then true
    else is_set ip a.server_ips

unfoldable pub normalize_ip_string : Texts → Str → Str
normalize_ip_string t ip = elim (t.parse_text (t.trim_space ip)) [
  | none ↦ t.trim_space ip
  | some text ↦ text
]

unfoldable pub is_whitelisted_ip_string : Texts → Aggregator → Str → Bool
unfolding normalize_ip_string
is_whitelisted_ip_string t a ip =
    let key = normalize_ip_string t ip in
    if length key == 0 then false else is_set key a.whitelisted_ips

unfoldable pub set_whitelist_ip : Texts → Aggregator → Str → Bool → Aggregator
unfolding normalize_ip_string
set_whitelist_ip t a ip whitelisted =
    let key = normalize_ip_string t ip in
    if length key == 0
    then a
    else if whitelisted
    then record a { whitelisted_ips = insert key true a.whitelisted_ips }
    else record a { whitelisted_ips = erase key a.whitelisted_ips }
