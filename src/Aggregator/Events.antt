-- ===== src/Aggregator/Events.antt =====
-- agent/aggregator_event.go: `ProcessEvent`, from the filters to the remediation.
use kerneleye.Base.{
  ℕ, ◌+◌, ◌/◌, ◌%◌, Bool, true, false, Option, none, some, [], length, ltb, ◌==◌, if◌then◌else◌,
  ◌||◌,
}
use kerneleye.Base.Str.{Str}
use kerneleye.Remediation.{Net}
use kerneleye.Network.{is_private_ip, bytes_to_ip}
use kerneleye.SafeStats.{IpStats, get_or_create, set_stats}
use kerneleye.Analyzer.{Analyzer, Decision, evaluate, block, rate_limit}
use kerneleye.Aggregator.{
  Aggregator, Event, EventStats, Texts, is_agent_self_traffic, is_control_plane_traffic,
  is_host_self_ip, tracked_port_for_event, event_comm_name, is_set,
}
use kerneleye.Aggregator.Ports.{bump, add_port}

-- What surrounds the handler: package net, the clock, and the remediator's answers.
pub record Host : Type 0 where
  pub texts : Texts
  pub net : Net
  pub is_multicast : Str → Bool
  pub now : ℕ
  pub blocks : Str → Bool
  pub rate_limits : Str → Bool

-- Bit `2 ^ k` of the flags, at 1, 2 and 8.
abbrev pub flag : ℕ → ℕ → Bool
flag bit flags = flags / bit % 2 == 1

abbrev pub one_if : Bool → ℕ
one_if true = 1
one_if false = 0

unfoldable pub event_time : Host → Aggregator → Event → ℕ
event_time w a event = if ltb 0 event.timestamp then a.boot_time + event.timestamp else w.now

-- The entry that an address gets with its first event.
unfoldable pub fresh_stats : Aggregator → Event → ℕ → IpStats EventStats
fresh_stats a event time = record {
  first_seen = time;
  stats = record {
    protocol = event.protocol;
    syn_count = 0;
    ack_count = 0;
    failed_handshakes = 0;
    unique_ports = [];
    port_counts = [];
    port_hits = [];
    bytes_in = 0;
    bytes_out = 0;
    icmp_packets_in = 0;
    icmp_packets_out = 0;
    port_bytes_in = [];
    port_bytes_out = [];
    direction = event.direction;
    local_ip = a.cached_public_ip;
    last_seen = 0;
    process_name = [];
  };
}

-- The update of an entry.
unfoldable pub count_event : Texts → Event → ℕ → ℕ → EventStats → EventStats
unfolding bump add_port
count_event t event time port s = record s {
  last_seen = time;
  protocol = event.protocol;
  syn_count = s.syn_count + one_if (flag 1 event.flags);
  ack_count = s.ack_count + one_if (flag 2 event.flags);
  failed_handshakes = s.failed_handshakes + one_if (flag 8 event.flags);
  unique_ports = add_port port s.unique_ports;
  port_counts = bump port s.port_counts;
  port_hits = bump port s.port_hits;
  process_name =
      if length (event_comm_name t event) == 0 then s.process_name else event_comm_name t event;
}

-- Whether the event is dropped before it is counted; `ip` is the address, `text` its text.
unfoldable pub ignored : Host → Aggregator → Event → Str → Str → Bool
ignored w a event ip text =
    is_agent_self_traffic w.texts a event
    || is_control_plane_traffic a event text
    || is_host_self_ip a text
    || is_private_ip w.net w.is_multicast ip

-- The map of statistics after the event.
unfoldable pub counted : Host → Aggregator → Event → Str → Aggregator
unfolding event_time fresh_stats count_event
counted w a event text =
    let time = event_time w a event in
    let found = get_or_create w.now a.stats text (fresh_stats a event time) in
    record a {
      stats = set_stats found.0 text (record found.1 {
        stats = count_event w.texts event time (tracked_port_for_event a event) found.1.stats;
      });
    }

-- What the handler did to the remediator, and whether it reported it to the backend.
pub record Remedy : Type 0 where
  pub decision : Decision
  pub reported : Bool

pub record Handled : Type 0 where
  pub state : Aggregator
  pub analyzer : Option Analyzer
  pub remedy : Option Remedy

unfoldable pub remedy_of : Host → Decision → Remedy
remedy_of w d = record {
  decision = d;
  reported = elim d.action [ block ↦ w.blocks d.ip | rate_limit ↦ w.rate_limits d.ip ];
}

-- The analysis of an event whose address is not whitelisted; without an analyzer there is none.
unfoldable pub remediate : Host → Aggregator → Event → Str → Option Analyzer → Handled
unfolding remedy_of event_time
remediate w a event text none = record { state = a; analyzer = none; remedy = none }
remediate w a event text (some ana) =
    let (ana', decision) = evaluate ana (record {
      source_ip = text;
      dest_port = tracked_port_for_event a event;
      protocol = event.protocol;
      flags = event.flags;
      time = event_time w a event;
    }) in
    record {
      state = a;
      analyzer = some ana';
      remedy = elim decision [ none ↦ none | some d ↦ some (remedy_of w d) ];
    }

-- What becomes of an event by the filters' verdict and by the whitelist's.
unfoldable pub dispatch : Host → Aggregator → Option Analyzer → Event → Str → Bool → Bool → Handled
unfolding counted remediate
dispatch w a ana event text true white = record { state = a; analyzer = ana; remedy = none }
dispatch w a ana event text false true = record {
  state = counted w a event text;
  analyzer = ana;
  remedy = none;
}
dispatch w a ana event text false false = remediate w (counted w a event text) event text ana

-- The address that `bytesToIP` makes; nil is the empty slice, with Go's text for it.
unfoldable pub event_ip : Event → Str
event_ip event = elim (bytes_to_ip event.saddr event.family) [ none ↦ [] | some ip ↦ ip ]

-- `ProcessEvent`
unfoldable pub process_event : Host → Aggregator → Option Analyzer → Event → Handled
unfolding ignored dispatch event_ip
process_event w a ana event =
    let text = w.texts.ip_text (event_ip event) in
    dispatch w a ana event text (ignored w a event (event_ip event) text)
      (is_set text a.whitelisted_ips)
