-- ===== src/Analyzer.antt =====
-- agent/remediation/analyzer.go: the traffic analyzer. The LRU list and the map that finds its elements
-- change together; both are one association list here, the most recent address first. A time is a number
-- of nanoseconds since Go's zero time, 0 that time itself.
pub mod Wellformed
pub mod Verdicts
pub mod Ring
use kerneleye.Base.{
  ℕ, zero, suc, ◌+◌, ◌*◌, ◌/◌, ◌%◌, ◌^◌, Bool, true, false, not, ◌&&◌, ◌||◌, Option, none, some,
  List, [], ◌∷◌, length, set, replicate, ltb, leb, ◌==◌, if◌then◌else◌,
}
use kerneleye.Base.Str.{Str}
use kerneleye.Base.Dict.{Dict, lookup, erase, retain}
use kerneleye.Base.Int.{ℤ, pos, ◌-ℤ◌, ltb_ℤ, leb_ℤ}

abbrev pub second : ℕ
second = 10 ^ 9

-- `AnalyzerConfig`
pub record AnalyzerConfig : Type 0 where
  pub syn_flood_threshold : ℕ
  pub syn_flood_window : ℕ
  pub port_scan_threshold : ℕ
  pub port_scan_window : ℕ
  pub max_states : ℕ

abbrev pub default_analyzer_config : AnalyzerConfig
default_analyzer_config = record {
  syn_flood_threshold = 20;
  syn_flood_window = 60 * second;
  port_scan_threshold = 10;
  port_scan_window = 30 * second;
  max_states = 10000;
}

-- `ipState`: the ring buffer of SYN times, and the ports by the time they were last met.
pub record IpState : Type 0 where
  pub syns : List ℕ
  pub syn_idx : ℕ
  pub syn_len : ℕ
  pub ports : List (ℕ × ℕ)
  pub blocked : Bool
  pub rate_limited : Bool
  pub last_limited : ℕ

pub record Analyzer : Type 0 where
  pub config : AnalyzerConfig
  pub states : Dict IpState

unfoldable pub new_analyzer : AnalyzerConfig → Analyzer
new_analyzer cfg = record {
  config = if cfg.syn_flood_threshold == 0 then default_analyzer_config else cfg;
  states = [];
}

-- `TrafficEvent`, the source as its string, and `Decision`; what a decision says of the event is the
-- event itself.
pub record TrafficEvent : Type 0 where
  pub source_ip : Str
  pub dest_port : ℕ
  pub protocol : ℕ
  pub flags : ℕ
  pub time : ℕ

pub data Action : Type 0 where
  block rate_limit : Action

pub record Decision : Type 0 where
  pub ip : Str
  pub action : Action
  pub duration : ℕ
  pub dest_port : ℕ
  pub protocol : ℕ

-- Whether a time is in the window that ends now: not after now, and less than the window before it.
unfoldable pub in_window : ℕ → ℕ → ℕ → Bool
in_window now window t = let age = pos now -ℤ pos t in leb_ℤ (pos 0) age && ltb_ℤ age (pos window)

-- The entries of the ring that are in the window, of its first `n` entries; the zero time is skipped.
unfoldable pub count_recent : ℕ → ℕ → ℕ → List ℕ → ℕ
count_recent now window zero ts = 0
count_recent now window (suc n) [] = 0
count_recent now window (suc n) (t ∷ ts) =
    let rest = count_recent now window n ts in
    if not (t == 0) && in_window now window t then suc rest else rest

-- A SYN is written over the oldest entry of the ring. Its index is within the ring.
unfoldable pub push_syn : ℕ → IpState → IpState
push_syn now s = record s {
  syns = set s.syns s.syn_idx now;
  syn_idx = (s.syn_idx + 1) % length s.syns;
  syn_len = if ltb s.syn_len (length s.syns) then s.syn_len + 1 else s.syn_len;
}

-- `state.ports[port] = now`
unfoldable pub put_port : ℕ → ℕ → List (ℕ × ℕ) → List (ℕ × ℕ)
put_port port now [] = (port, now) ∷ []
put_port port now ((p, t) ∷ ps) =
    if p == port then (port, now) ∷ ps else (p, t) ∷ put_port port now ps

-- The ports that are in the window; the others are deleted.
unfoldable pub recent_ports : ℕ → ℕ → List (ℕ × ℕ) → List (ℕ × ℕ)
unfolding in_window
recent_ports now window [] = []
recent_ports now window ((p, t) ∷ ps) =
    if in_window now window t
    then (p, t) ∷ recent_ports now window ps
    else recent_ports now window ps

abbrev decision : TrafficEvent → Action → ℕ → Decision
decision e action duration = record {
  ip = e.source_ip;
  action = action;
  duration = duration;
  dest_port = e.dest_port;
  protocol = e.protocol;
}

-- The port scan check.
unfoldable pub check_ports : AnalyzerConfig → TrafficEvent → IpState → IpState × Option Decision
unfolding put_port recent_ports
check_ports cfg e s =
    let ports = recent_ports e.time cfg.port_scan_window (put_port e.dest_port e.time s.ports) in
    if ltb cfg.port_scan_threshold (length ports) && not s.rate_limited
    then (
      record s { ports = ports; rate_limited = true; last_limited = e.time },
      some (decision e rate_limit (600 * second)),
    )
    else (record s { ports = ports }, none)

-- `event.Protocol == 6 && (event.Flags&0x02 != 0)`
unfoldable pub is_syn : TrafficEvent → Bool
is_syn e = e.protocol == 6 && not (e.flags / 2 % 2 == 0)

-- A TCP event with flag 0x02: the flood check, then the port check.
unfoldable pub check_syn : AnalyzerConfig → TrafficEvent → IpState → IpState × Option Decision
unfolding push_syn check_ports
check_syn cfg e s =
    let s' = push_syn e.time s in
    if ltb cfg.syn_flood_threshold (count_recent e.time cfg.syn_flood_window s'.syn_len s'.syns)
    then (record s' { blocked = true }, some (decision e block (3600 * second)))
    else check_ports cfg e s'

-- What an event does to the state of its address.
unfoldable pub judge : AnalyzerConfig → TrafficEvent → IpState → IpState × Option Decision
unfolding is_syn check_syn check_ports
judge cfg e s =
    if s.blocked then (s, none) else if is_syn e then check_syn cfg e s else check_ports cfg e s

unfoldable pub new_state : AnalyzerConfig → IpState
new_state cfg = record {
  syns = replicate (cfg.syn_flood_threshold + 1) 0;
  syn_idx = 0;
  syn_len = 0;
  ports = [];
  blocked = false;
  rate_limited = false;
  last_limited = 0;
}

-- The list without its last element, the least recently used.
unfoldable pub drop_last {ℓ} : {A : Type ℓ} → List A → List A
drop_last [] = []
drop_last (x ∷ []) = []
drop_last (x ∷ (y ∷ ys)) = x ∷ drop_last (y ∷ ys)

-- `getOrCreateStateLocked`: the state of the address, which goes to the front, and the others.
unfoldable pub get_or_create_state : Analyzer → Str → IpState × Dict IpState
unfolding new_state drop_last
get_or_create_state a ip = elim (lookup ip a.states) [
  | some s ↦ (s, erase ip a.states)
  | none ↦ (
    new_state a.config,
    if leb a.config.max_states (length a.states) then drop_last a.states else a.states,
  )
]

unfoldable pub evaluate : Analyzer → TrafficEvent → Analyzer × Option Decision
unfolding get_or_create_state judge
evaluate a e =
    let (s, others) = get_or_create_state a e.source_ip in
    let (s', d) = judge a.config e s in (record a { states = (e.source_ip, s') ∷ others }, d)

-- `getLastActivity`
unfoldable pub later : ℕ → ℕ → ℕ
later latest t = if ltb latest t then t else latest

unfoldable pub last_syn : ℕ → ℕ → List ℕ → ℕ
unfolding later
last_syn latest zero ts = latest
last_syn latest (suc n) [] = latest
last_syn latest (suc n) (t ∷ ts) = last_syn (later latest t) n ts

unfoldable pub last_port : ℕ → List (ℕ × ℕ) → ℕ
unfolding later
last_port latest [] = latest
last_port latest ((p, t) ∷ ps) = last_port (later latest t) ps

unfoldable pub get_last_activity : IpState → ℕ
unfolding last_syn last_port
get_last_activity s = last_port (last_syn 0 s.syn_len s.syns) s.ports

-- `prune`, at the time `now`
unfoldable pub should_evict : ℕ → IpState → Bool
unfolding get_last_activity
should_evict now s =
    let idle = get_last_activity s in
    (not (idle == 0) && ltb_ℤ (pos (600 * second)) (pos now -ℤ pos idle))
    || (s.rate_limited && ltb_ℤ (pos (600 * second)) (pos now -ℤ pos s.last_limited))
    || (s.blocked && ltb_ℤ (pos (3600 * second)) (pos now -ℤ pos idle))

unfoldable pub prune : ℕ → Analyzer → Analyzer
unfolding should_evict
prune now a = record a { states = retain (λ ip s. not (should_evict now s)) a.states }
