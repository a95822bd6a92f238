-- ===== src/Aggregator/Counting.antt =====
-- What the counting of events (agent/aggregator_event.go, `ProcessEvent`) keeps true of every entry.
use kerneleye.Base.{
  ℕ, ◌≤◌, ◌≡◌, refl, Bool, true, false, Option, none, some, List, [], ◌∷◌, All, map, length, leb,
  ◌==◌, if◌then◌else◌, arith, subst, Bool-cases, Option-cases, inl, inr, ap, ◌∙◌,
}
use kerneleye.Base.Str.{Str, str_eq}
use kerneleye.Base.Dict.{Dict, lookup, insert, erase}
use kerneleye.SafeStats.{SafeStats, IpStats, find_oldest, evict, get_or_create, set_stats}
use kerneleye.Network.{is_private_ip}
use kerneleye.Analyzer.{Analyzer}
use kerneleye.Aggregator.{
  Aggregator, Event, EventStats, Texts, tracked_port_for_event, is_set, is_host_self_ip,
  is_control_plane_traffic, is_agent_self_traffic,
}
use kerneleye.Aggregator.Ports.{bump, add_port, total, total-bump}
use kerneleye.Aggregator.Events.{
  Host, flag, one_if, event_time, fresh_stats, count_event, ignored, counted, Remedy, remediate,
  dispatch, event_ip, process_event,
}

-- Hits and counts are the same map, the ports are its keys, and no flag was counted more often than
-- there were events.
pub record IsCounted (s : EventStats) : Type 0 where
  pub hits : s.port_hits ≡ s.port_counts
  pub ports : s.unique_ports ≡ map (λ e. e.0) s.port_counts
  pub syns : s.syn_count ≤ total s.port_counts
  pub acks : s.ack_count ≤ total s.port_counts
  pub failures : s.failed_handshakes ≤ total s.port_counts

abbrev pub AllCounted : Dict (IpStats EventStats) → Type 0
AllCounted = All (λ e. IsCounted e.1.stats)

ports-bump :
    (port : ℕ) (m : List (ℕ × ℕ)) → add_port port (map (λ e. e.0) m) ≡ map (λ e. e.0) (bump port m)
unfolding add_port bump
ports-bump port [] = refl
ports-bump port ((p, n) ∷ m) = ground (arith, ports-bump port m)

one_if-le : (b : Bool) → one_if b ≤ 1
one_if-le true = omega arith
one_if-le false = omega arith

count_event-IsCounted :
    (t : Texts) (event : Event) (time port : ℕ) (s : EventStats)
    → IsCounted s
    → IsCounted (count_event t event time port s)
unfolding count_event
count_event-IsCounted t event time port s c = record {
  hits = ap (bump port) c.hits;
  ports = ap (add_port port) c.ports ∙ ports-bump port s.port_counts;
  syns = omega (arith, c.syns, total-bump port s.port_counts, one_if-le (flag 1 event.flags));
  acks = omega (arith, c.acks, total-bump port s.port_counts, one_if-le (flag 2 event.flags));
  failures =
      omega (arith, c.failures, total-bump port s.port_counts, one_if-le (flag 8 event.flags));
}

fresh-IsCounted :
    (a : Aggregator) (event : Event) (time : ℕ) → IsCounted (fresh_stats a event time).stats
unfolding fresh_stats total
fresh-IsCounted a event time = record {
  hits = refl;
  ports = refl;
  syns = omega arith;
  acks = omega arith;
  failures = omega arith;
}

AllCounted-insert :
    (k : Str) (v : IpStats EventStats) (m : Dict (IpStats EventStats))
    → IsCounted v.stats
    → AllCounted m
    → AllCounted (insert k v m)
unfolding insert
AllCounted-insert k v [] c all = (c, tt)
AllCounted-insert k v ((j, w) ∷ m) c all = elim (Bool-cases (str_eq j k)) [
  | inl e ↦ rw (e, insert) (c, all.1)
  | inr e ↦ rw (e, insert) (all.0, AllCounted-insert k v m c all.1)
]

AllCounted-erase : (k : Str) (m : Dict (IpStats EventStats)) → AllCounted m → AllCounted (erase k m)
unfolding erase
AllCounted-erase k [] all = tt
AllCounted-erase k ((j, w) ∷ m) all = elim (Bool-cases (str_eq j k)) [
  | inl e ↦ rw (e, erase) (AllCounted-erase k m all.1)
  | inr e ↦ rw (e, erase) (all.0, AllCounted-erase k m all.1)
]

lookup-IsCounted :
    (k : Str) (m : Dict (IpStats EventStats)) (v : IpStats EventStats)
    → AllCounted m
    → lookup k m ≡ some v
    → IsCounted v.stats
unfolding lookup
lookup-IsCounted k [] v all h = cc
lookup-IsCounted k ((j, w) ∷ m) v all h = elim (Bool-cases (str_eq j k)) [
  | inl e ↦ let same : w ≡ v = ground (arith, e, h) in subst (λ u. IsCounted u.stats) same all.0
  | inr e ↦ lookup-IsCounted k m v all.1 (ground (arith, e, h))
]

AllCounted-evict :
    (now : ℕ) (m : Dict (IpStats EventStats)) → AllCounted m → AllCounted (evict now m)
unfolding evict
AllCounted-evict now m all = elim (Bool-cases (length (find_oldest [] now m) == 0)) [
  | inl e ↦ rw (e, evict) all
  | inr e ↦ rw (e, evict) (AllCounted-erase (find_oldest [] now m) m all)
]

-- What `GetOrCreate` makes room for.
AllCounted-room :
    (b : Bool) (now : ℕ) (m : Dict (IpStats EventStats))
    → AllCounted m
    → AllCounted (if b then evict now m else m)
AllCounted-room true now m all = AllCounted-evict now m all
AllCounted-room false now m all = all

module _ (now : ℕ) (s : SafeStats EventStats) (ip : Str) (created : IpStats EventStats)
    (c : IsCounted created.stats) (all : AllCounted s.items) where
  created-AllCounted :
      AllCounted (get_or_create now s ip created).0.items
      × IsCounted (get_or_create now s ip created).1.stats
  unfolding get_or_create
  created-AllCounted = elim (Option-cases (lookup ip s.items)) [
    | inl e ↦
        rw (e, get_or_create)
          (
            AllCounted-insert ip created _ c
                (AllCounted-room (leb s.max_items (length s.items)) now s.items all),
            c,
          )
    | inr (v, e) ↦ rw (e, get_or_create) (all, lookup-IsCounted ip s.items v all e)
  ]

counted-AllCounted :
    (w : Host) (a : Aggregator) (event : Event) (text : Str)
    → AllCounted a.stats.items
    → AllCounted (counted w a event text).stats.items
unfolding counted set_stats
counted-AllCounted w a event text all =
    let q =
      created-AllCounted w.now a.stats text (fresh_stats a event (event_time w a event))
        (fresh-IsCounted a event (event_time w a event)) all in
    AllCounted-insert text _ _
      (count_event-IsCounted w.texts event (event_time w a event) (tracked_port_for_event a event) _
        q.1)
      q.0

remediate-state :
    (w : Host) (a : Aggregator) (event : Event) (text : Str) (ana : Option Analyzer)
    → (remediate w a event text ana).state ≡ a
unfolding remediate
remediate-state w a event text none = refl
remediate-state w a event text (some ana) = refl

dispatch-AllCounted :
    (w : Host) (a : Aggregator) (ana : Option Analyzer) (event : Event) (text : Str)
    (dropped white : Bool)
    → AllCounted a.stats.items
    → AllCounted (dispatch w a ana event text dropped white).state.stats.items
unfolding dispatch
dispatch-AllCounted w a ana event text true white all = all
dispatch-AllCounted w a ana event text false true all = counted-AllCounted w a event text all
dispatch-AllCounted w a ana event text false false all =
    rw (remediate-state w (counted w a event text) event text ana)
      (counted-AllCounted w a event text all)

-- An event keeps every entry counted: its hits are its counts, its ports are those that were counted,
-- and no flag was counted more often than there were events.
pub process_event-IsCounted :
    (w : Host) (a : Aggregator) (ana : Option Analyzer) (event : Event)
    → AllCounted a.stats.items
    → AllCounted (process_event w a ana event).state.stats.items
unfolding process_event
process_event-IsCounted w a ana event all = dispatch-AllCounted w a ana event _ _ _ all

dispatch-guarded :
    (w : Host) (a : Aggregator) (ana : Option Analyzer) (event : Event) (text : Str)
    (dropped white : Bool) (r : Remedy)
    → (dispatch w a ana event text dropped white).remedy ≡ some r
    → (dropped ≡ false) × (white ≡ false)
unfolding dispatch
dispatch-guarded w a ana event text true white r h = cc
dispatch-guarded w a ana event text false true r h = cc
dispatch-guarded w a ana event text false false r h = (refl, refl)

-- An event makes the agent act only if its address is not private, not the host's, not the control
-- plane's and not on the whitelist, and the event is not the agent's own.
pub process_event-guarded :
    (w : Host) (a : Aggregator) (ana : Option Analyzer) (event : Event) (r : Remedy)
    → (process_event w a ana event).remedy ≡ some r
    → let ip = event_ip event in
      let text = w.texts.ip_text ip in
      (is_private_ip w.net w.is_multicast ip ≡ false)
      × (is_host_self_ip a text ≡ false)
      × (is_control_plane_traffic a event text ≡ false)
      × (is_agent_self_traffic w.texts a event ≡ false)
      × (is_set text a.whitelisted_ips ≡ false)
unfolding process_event ignored
process_event-guarded w a ana event r acted =
    let text = w.texts.ip_text (event_ip event) in
    let q =
      dispatch-guarded w a ana event text (ignored w a event (event_ip event) text)
        (is_set text a.whitelisted_ips) r acted in
    ground (arith, q.0, q.1)
