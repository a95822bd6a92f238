-- ===== src/History.antt =====
-- agent/history_store.go: the buckets of metrics that outlive the agent, as the SQL statements treat them.
pub mod Signals
use kerneleye.Base.{
  ℕ, ◌+◌, ◌-◌, ◌*◌, ◌/◌, ◌%◌, Bool, true, false, not, ◌&&◌, ◌||◌, ◌^◌, Option, none, some, List, [],
  ◌∷◌, length, keep, ltb, leb, ◌==◌, if◌then◌else◌,
}
use kerneleye.Base.Str.{Str, str, str_eq}
use kerneleye.Base.Int.{ℤ, pos, pos_part, ltb_ℤ, leb_ℤ}
use kerneleye.Float.{Float}
use kerneleye.Scoring.{IpMetrics, ThreatScore}
use kerneleye.Flush.Snapshot.{HistorySignals}

-- `HistoryStoreConfig`, in seconds.
pub record HistoryStoreConfig : Type 0 where
  pub bucket_size : ℤ
  pub lookback_window : ℤ
  pub retention : ℤ

abbrev pub default_history_store_config : HistoryStoreConfig
default_history_store_config = record {
  bucket_size = pos 60;
  lookback_window = pos 1800;
  retention = pos 86400;
}

-- A row of `ip_metric_buckets`.
pub record Bucket : Type 0 where
  pub ip : Str
  pub direction : ℕ
  pub bucket_start : ℕ
  pub syn_count : ℕ
  pub ack_count : ℕ
  pub failed_handshakes : ℕ
  pub unique_ports : ℕ
  pub max_port_hits : ℕ
  pub bytes_in : ℕ
  pub bytes_out : ℕ
  pub primary_port : ℕ
  pub protocol : ℕ
  pub process_name : Str
  pub threat_score : ℤ
  pub last_seen : ℕ

-- The configuration's durations as seconds, all positive.
pub record HistoryStore : Type 0 where
  pub rows : List Bucket
  pub bucket_size : ℕ
  pub lookback_window : ℕ
  pub retention : ℕ
  pub writes : ℕ

-- The guard of `NewHistoryStore`.
unfoldable pub history_config : HistoryStoreConfig → HistoryStoreConfig
history_config cfg =
    if leb_ℤ cfg.bucket_size (pos 0)
      || leb_ℤ cfg.lookback_window (pos 0)
      || leb_ℤ cfg.retention (pos 0)
    then default_history_store_config
    else cfg

-- The store that `openHistoryStore` makes of the rows that the file holds.
unfoldable pub open_history_store : HistoryStoreConfig → List Bucket → HistoryStore
open_history_store cfg rows = record {
  rows = rows;
  bucket_size = pos_part cfg.bucket_size;
  lookback_window = pos_part cfg.lookback_window;
  retention = pos_part cfg.retention;
  writes = 0;
}

-- `NewHistoryStore`: an explicit path alone, or the first of the two defaults that opens.
unfoldable pub new_history_store :
    (Str → Option (List Bucket)) → Str → HistoryStoreConfig → Option HistoryStore
unfolding history_config open_history_store
new_history_store opens path cfg =
    let opened : Option (List Bucket) =
      if length path == 0
      then elim (opens (str "/var/lib/kerneleye/history.db")) [
        | some rows ↦ some rows
        | none ↦ opens (str "/tmp/kerneleye/history.db")
      ]
      else opens path in
    elim opened [ none ↦ none | some rows ↦ some (open_history_store (history_config cfg) rows) ]

-- `Truncate(size).Unix()` of a time in Unix seconds: multiples of the size count from the year 1.
unfoldable pub truncate : ℕ → ℕ → ℕ
truncate size t = t - (t + 62135596800) % size

unfoldable pub current_bucket : HistoryStore → ℕ → ℕ
unfolding truncate
current_bucket h now = truncate h.bucket_size now

unfoldable pub since_bucket : HistoryStore → ℕ → ℕ
unfolding truncate
since_bucket h now = truncate h.bucket_size (now - h.lookback_window)

abbrev pub same_key : Str → ℕ → Bucket → Bool
same_key ip direction r = str_eq r.ip ip && r.direction == direction

-- The rows of `LoadSignals`: the look-back window, without the bucket of the present.
unfoldable pub in_lookback : HistoryStore → Str → ℕ → ℕ → Bucket → Bool
unfolding current_bucket since_bucket
in_lookback h ip direction now r =
    same_key ip direction r
    && leb (since_bucket h now) r.bucket_start
    && ltb r.bucket_start (current_bucket h now)

abbrev pub max_ℤ : ℤ → ℤ → ℤ
max_ℤ a b = if ltb_ℤ a b then b else a

abbrev pub max_ℕ : ℕ → ℕ → ℕ
max_ℕ a b = if ltb a b then b else a

-- `COALESCE(MAX(threat_score), 0)`
unfoldable pub max_score : List Bucket → ℤ
max_score [] = pos 0
max_score (r ∷ []) = r.threat_score
max_score (r ∷ s ∷ rows) = max_ℤ r.threat_score (max_score (s ∷ rows))

-- `COALESCE(MAX(max_port_hits), 0)`
unfoldable pub max_hits : List Bucket → ℕ
max_hits [] = 0
max_hits (r ∷ rows) = max_ℕ r.max_port_hits (max_hits rows)

unfoldable pub sum_connections : List Bucket → ℕ
sum_connections [] = 0
sum_connections (r ∷ rows) = r.syn_count + r.ack_count + sum_connections rows

-- The aggregates of the query.
unfoldable pub signals_of : List Bucket → HistorySignals
unfolding max_score max_hits sum_connections
signals_of rows = record {
  max_threat_score = max_score rows;
  max_port_hits = max_hits rows;
  total_connections = sum_connections rows;
  bucket_count = length rows;
}

-- `LoadSignals`; `runs` is whether the query does.
unfoldable pub load_signals : Bool → HistoryStore → Str → ℕ → ℕ → Option HistorySignals
unfolding signals_of in_lookback
load_signals runs h ip direction now =
    if runs then some (signals_of (keep (in_lookback h ip direction now) h.rows)) else none

-- The `DO UPDATE` of `PersistBucket`, of a row `r` by the new one `n`.
unfoldable pub merge : Bucket → Bucket → Bucket
merge r n = record r {
  syn_count = r.syn_count + n.syn_count;
  ack_count = r.ack_count + n.ack_count;
  failed_handshakes = r.failed_handshakes + n.failed_handshakes;
  unique_ports = max_ℕ r.unique_ports n.unique_ports;
  max_port_hits = max_ℕ r.max_port_hits n.max_port_hits;
  bytes_in = r.bytes_in + n.bytes_in;
  bytes_out = r.bytes_out + n.bytes_out;
  primary_port = if leb r.max_port_hits n.max_port_hits then n.primary_port else r.primary_port;
  protocol = if n.protocol == 0 then r.protocol else n.protocol;
  process_name = if length n.process_name == 0 then r.process_name else n.process_name;
  threat_score = max_ℤ r.threat_score n.threat_score;
  last_seen = max_ℕ r.last_seen n.last_seen;
}

-- `INSERT … ON CONFLICT(ip, direction, bucket_start)`
unfoldable pub upsert : Bucket → List Bucket → List Bucket
unfolding merge
upsert n [] = n ∷ []
upsert n (r ∷ rows) =
    if same_key n.ip n.direction r && r.bucket_start == n.bucket_start
    then merge r n ∷ rows
    else r ∷ upsert n rows

-- The row that a flush writes.
unfoldable pub bucket_of :
    (f : Float)
    → HistoryStore
    → Str
    → ℕ
    → ℕ
    → Str
    → ℕ × ℕ
    → IpMetrics f
    → ThreatScore f
    → ℕ
    → Bucket
unfolding current_bucket
bucket_of f h ip direction protocol process bytes m score now = record {
  ip = ip;
  direction = direction;
  bucket_start = current_bucket h now;
  syn_count = m.syn_count;
  ack_count = m.ack_count;
  failed_handshakes = m.failed_handshakes;
  unique_ports = m.unique_ports;
  max_port_hits = m.max_port_hits;
  bytes_in = bytes.0;
  bytes_out = bytes.1;
  primary_port = m.primary_port;
  protocol = protocol;
  process_name = process;
  threat_score = score.score;
  last_seen = now;
}

-- The clean-up at every 120th write.
unfoldable pub clean_up : Bool → ℕ → HistoryStore → HistoryStore
clean_up runs now h =
    if h.writes % 120 == 0 && runs
    then record h { rows = keep (λ r. leb (now - h.retention) r.bucket_start) h.rows }
    else h

-- `PersistBucket` of a row, and whether it went through; `inserts` and `cleans` are whether the
-- statements do.
unfoldable pub persist_bucket : Bool → Bool → ℕ → HistoryStore → Bucket → HistoryStore × Bool
unfolding upsert clean_up
persist_bucket inserts cleans now h n =
    if inserts
    then (clean_up cleans now (record h { rows = upsert n h.rows; writes = h.writes + 1 }), true)
    else (h, false)

-- The best row under an order, from one found so far.
unfoldable pub pick : (Bucket → Bucket → Bool) → Option Bucket → List Bucket → Option Bucket
pick better best [] = best
pick better none (r ∷ rows) = pick better (some r) rows
pick better (some b) (r ∷ rows) = pick better (if better r b then some r else some b) rows

-- `ORDER BY max_port_hits DESC, last_seen DESC` and `ORDER BY last_seen DESC`
unfoldable pub more_hits : Bucket → Bucket → Bool
more_hits r b =
    ltb b.max_port_hits r.max_port_hits
    || (r.max_port_hits == b.max_port_hits && ltb b.last_seen r.last_seen)

unfoldable pub more_recent : Bucket → Bucket → Bool
more_recent r b = ltb b.last_seen r.last_seen

unfoldable pub sum_syn : List Bucket → ℕ
sum_syn [] = 0
sum_syn (r ∷ rows) = r.syn_count + sum_syn rows

-- Port, protocol, process name and SYN count as the queries give them.
pub record Found : Type 0 where
  pub port : ℕ
  pub proto : ℕ
  pub process : Str
  pub total_syn : ℕ

unfoldable pub recent_context : HistoryStore → Str → ℕ → ℕ → Found
unfolding pick more_hits more_recent sum_syn since_bucket
recent_context h ip direction now =
    let rows =
      keep (λ r. same_key ip direction r && leb (since_bucket h now) r.bucket_start) h.rows in
    let best = pick more_hits none (keep (λ r. ltb 0 r.primary_port) rows) in
    record {
      port = elim best [ none ↦ 0 | some r ↦ r.primary_port ];
      proto = elim best [ none ↦ 0 | some r ↦ r.protocol ];
      process = elim (pick more_recent none (keep (λ r. ltb 0 (length r.process_name)) rows)) [
        | none ↦ []
        | some r ↦ r.process_name
      ];
      total_syn = sum_syn rows;
    }

-- The query over all time; a row that is not found leaves what the first query gave.
unfoldable pub any_context : HistoryStore → Str → ℕ → Found → Found
unfolding pick more_recent
any_context h ip direction first =
    elim (pick more_recent none
      (keep (λ r. same_key ip direction r && ltb 0 r.primary_port) h.rows)) [
        | none ↦ first
        | some r ↦ record {
          port = r.primary_port;
          proto = r.protocol;
          process = r.process_name;
          total_syn = r.syn_count;
        }
      ]

-- `GetContext`: port, protocol and process name.
unfoldable pub get_context : HistoryStore → Str → ℕ → ℕ → ℕ × ℕ × Str
unfolding recent_context any_context
get_context h ip direction now =
    let first = recent_context h ip direction now in
    let c = if first.port == 0 then any_context h ip direction first else first in
    if c.port == 0 then (0, 0, []) else (
      c.port % 2 ^ 16,
      if c.proto == 0 then (if ltb 0 c.total_syn then 6 else 0) else c.proto % 2 ^ 8,
      c.process,
    )
