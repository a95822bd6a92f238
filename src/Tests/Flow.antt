-- ===== src/Tests/Flow.antt =====
-- Runs of the theorems on the agent's way of an event: counting, flush, buffer, retry, history.
use kerneleye.Base.{
  ◌≡◌, ◌⊎◌, inr, refl, true, Option, none, some, List, [], ◌∷◌, ◌==◌, ◌&&◌, if◌then◌else◌, arith,
}
use kerneleye.Base.Str.{Str, str, str_eq}
use kerneleye.Base.Int.{pos}
use kerneleye.Proto.{ConnectionEvent, TrafficBatch, Reply, replied}
use kerneleye.Aggregator.{Aggregator, Event, Texts}
use kerneleye.Aggregator.Ports.{total}
use kerneleye.Aggregator.Events.{Host, process_event}
use kerneleye.Aggregator.Counting.{IsCounted, AllCounted, process_event-IsCounted}
use kerneleye.Buffer.{BufferDb, Codec, PendingBatch, decode_rows}
use kerneleye.Buffer.Window.{ideal, Saving, save_all, history, window, save_all-window}
use kerneleye.Flush.Send.{Disk, Flusher, retry_pending_batches, retry_loop}
use kerneleye.Flush.Retry.{AllAccepted, retry_pending-all_or_nothing}
use kerneleye.Ingest.Submit.{Code}
use kerneleye.Ingest.Stuck.{backend, retries, retries-stuck}
use kerneleye.History.{Bucket, HistoryStore, truncate, current_bucket, persist_bucket, load_signals}
use kerneleye.History.Signals.{Sane, persist-load_signals}
use kerneleye.Tests.{address}
use kerneleye.Tests.Traffic.{whole, scorer}
use kerneleye.Tests.Acts.{answers, net, multicast, public_ip}
use kerneleye.Tests.Backend.{calendar, ingester, event, entry, agent_key}

abbrev texts : Texts
texts = record { ip_text = λ ip. ip; parse_text = λ s. some s; trim_space = λ s. s }

abbrev host : Host
host = record {
  texts = texts;
  net = net;
  is_multicast = multicast;
  now = 1000;
  blocks = λ ip. true;
  rate_limits = λ ip. true;
}

abbrev aggregator : Aggregator
aggregator = record {
  stats = record { items = (address, entry) ∷ []; max_items = 10 };
  whitelisted_ips = [];
  server_ips = [];
  control_plane_ips = [];
  control_plane_port = 0;
  cached_public_ip = [];
  agent_pid = 1;
  boot_time = 5;
  ephemeral_port_min = 32768;
  ephemeral_port_max = 60999;
}

-- A SYN from 8.8.4.4 to port 22.
abbrev syn : Event
syn = record {
  timestamp = 995;
  tgid = 2;
  lport = 22;
  rport = 40000;
  family = 2;
  protocol = 6;
  flags = 1;
  direction = 0;
  saddr = public_ip;
  comm = str "sshd";
}

entry-IsCounted : IsCounted entry.stats
unfolding total
entry-IsCounted = record {
  hits = refl;
  ports = refl;
  syns = omega arith;
  acks = omega arith;
  failures = omega arith;
}

process_event-IsCounted_example :
    AllCounted (process_event host aggregator none syn).state.stats.items
process_event-IsCounted_example =
    process_event-IsCounted host aggregator none syn (entry-IsCounted, tt)

-- Encodes the batches without events.
abbrev codec : Codec
codec = record {
  marshal = λ b. elim b.events [
    | [] ↦ if b.total_events == 0 && b.aggregation_window_seconds == 0 then some b.api_key else none
    | e ∷ es ↦ none
  ];
  unmarshal = λ s.
      some (record { api_key = s; events = []; total_events = 0; aggregation_window_seconds = 0 });
}

abbrev disk : Disk
disk = record {
  codec = codec;
  reads = true;
  deletes = λ i. true;
  commits = true;
  statements = ideal;
  seconds = 1000;
}

-- The backend accepts every batch in full.
abbrev accepted : TrafficBatch → Option Reply
accepted b =
    some (replied (record { success = true; message = []; events_processed = b.total_events }))

abbrev flusher : Flusher whole
flusher = record {
  scorer = scorer;
  calendar = calendar;
  now = 1000;
  clock = pos 1000;
  has_history = true;
  signals = λ ip direction. none;
  counters = record { bytes = λ ip. some (7, 8); icmp = λ ip. none; port_bytes = λ ip port. none };
  remediator = answers;
  texts = texts;
  disk = disk;
  retry = λ i. accepted;
  submit = accepted;
  api_key = agent_key;
  until_snapshot = λ s. s;
  until_sent = λ s. record s { items = (str "9.9.9.9", entry) ∷ s.items };
}

abbrev waiting : BufferDb
waiting = record {
  rows = record { id = 1; payload = str "key"; api_key = str "key"; created_at = 900 } ∷ [];
  next_id = 2;
}

abbrev savings : List Saving
savings =
    record { now = 910; key = str "key"; events = [] }
    ∷ record { now = 920; key = str "key"; events = event ∷ [] }
    ∷ record { now = 930; key = str "key"; events = [] }
    ∷ []

waiting-window : waiting.rows ≡ window waiting.rows
unfolding window
waiting-window = refl

save_all-window_example :
    (save_all codec savings waiting).rows ≡ window (history codec savings 2 waiting.rows)
save_all-window_example =
    save_all-window codec savings 905 waiting waiting.rows
      (omega arith, (omega arith, (omega arith, tt))) waiting-window (omega arith, tt)

retry_pending-all_or_nothing_example :
    (retry_pending_batches disk (λ i b. accepted b) waiting ≡ waiting)
    ⊎ AllAccepted (λ i b. accepted b) 0 (decode_rows codec 1000 waiting.rows)
retry_pending-all_or_nothing_example = retry_pending-all_or_nothing (λ i b. accepted b) disk waiting

-- An event that no address is the source of.
abbrev poison : ConnectionEvent
poison = record event { source_ip = str "nowhere" }

abbrev poisoned : TrafficBatch
poisoned = record {
  api_key = agent_key;
  events = event ∷ poison ∷ [];
  total_events = 2;
  aggregation_window_seconds = 10;
}

abbrev poisoned_disk : Disk
poisoned_disk = record disk {
  codec = record { marshal = λ b. none; unmarshal = λ s. some poisoned };
}

abbrev head : PendingBatch
head = record { id = 1; batch = poisoned; age = 100 }

waits : decode_rows poisoned_disk.codec 1000 waiting.rows ≡ head ∷ []
unfolding decode_rows
waits = refl

unparsed : ingester.parse_addr poison.source_ip ≡ none
unfolding str_eq
unparsed = refl

abbrev status_text : Code → Str → Str
status_text code msg = msg

retries-stuck_example :
    (retries 3 poisoned_disk (backend whole ingester status_text) waiting ≡ waiting)
    × ((retry_loop (backend whole ingester status_text) 0 (head ∷ [])).submitted ≡ 1 ∷ [])
retries-stuck_example =
    retries-stuck whole ingester status_text poisoned_disk waiting head [] 3 waits
      (inr (event ∷ [], poison, [], refl, unparsed))

abbrev store : HistoryStore
store = record {
  rows = [];
  bucket_size = 60;
  lookback_window = 1800;
  retention = 86400;
  writes = 119;
}

abbrev bucket : Bucket
bucket = record {
  ip = address;
  direction = 0;
  bucket_start = 960;
  syn_count = 3;
  ack_count = 5;
  failed_handshakes = 1;
  unique_ports = 2;
  max_port_hits = 4;
  bytes_in = 10;
  bytes_out = 20;
  primary_port = 443;
  protocol = 6;
  process_name = str "sshd";
  threat_score = pos 30;
  last_seen = 1000;
}

store-Sane : Sane store
store-Sane = record { bucket = omega arith; window = omega arith }

in_bucket : 960 ≡ current_bucket store 1000
unfolding current_bucket truncate
in_bucket = refl

persist-load_signals_example :
    load_signals true (persist_bucket true true 1000 store bucket).0 address 0 1000
    ≡ load_signals true store address 0 1000
persist-load_signals_example =
    persist-load_signals store store-Sane address 0 true true true 1000 bucket in_bucket
