-- ===== src/Worker.antt =====
-- backend/internal/analysis/worker.go: the periodic scoring of a server's traffic.
use kerneleye.Base.{
  ℕ, ◌+◌, ◌-◌, ◌*◌, ◌/◌, ◌%◌, ◌≤◌, ◌<◌, ◌≡◌, ◌&&◌, Option, none, some, List, [], ◌∷◌, ltb, ◌==◌,
  if◌then◌else◌, arith,
}
use kerneleye.Base.Str.{Str, str_eq}
use kerneleye.Base.Int.{ℤ, pos}
use kerneleye.Float.{Float}
use kerneleye.Scoring.{IpMetrics, ThreatScore, ThreatScorer, Direction}
use kerneleye.Scoring.Score.{calculate_score}

-- A row of `GetTrafficAggregationByIP`; times are nanoseconds, `none` where the column is no time. The
-- sums are never negative.
pub record AggregateRow : Type 0 where
  pub source_ip : Str
  pub syn_count : ℕ
  pub ack_count : ℕ
  pub failed_handshakes : ℕ
  pub port_count : ℕ
  pub max_threat_score : ℤ
  pub window_start : Option ℕ
  pub window_end : Option ℕ

pub record WorkerConfig : Type 0 where
  pub time_window_mins : ℕ
  pub min_events : ℕ

abbrev pub minute : ℕ
minute = 60000000000

abbrev pub or_else {ℓ} : {A : Type ℓ} → Option A → A → A
or_else none a = a
or_else (some b) a = b

-- The window of the metrics, no longer than the interval of the worker.
unfoldable pub capped_window : WorkerConfig → ℕ → AggregateRow → ℕ × ℕ
capped_window cfg now row =
    let start = or_else row.window_start (now - 10 * minute) in
    let end = or_else row.window_end now in
    if ltb 0 cfg.time_window_mins && ltb (cfg.time_window_mins * minute) (end - start)
    then (end - cfg.time_window_mins * minute, end)
    else (start, end)

unfoldable pub established : ℕ → ℕ → ℕ → ℕ
established syn ack failed = (if ltb ack syn then ack else syn) - failed

unfoldable pub base_hits : AggregateRow → ℕ
base_hits row =
    let hits = if ltb row.syn_count row.ack_count then row.ack_count else row.syn_count in
    if ltb hits row.failed_handshakes then row.failed_handshakes else hits

-- The hits on the busiest port, estimated: spread evenly over the ports and rounded up.
unfoldable pub spread_hits : ℕ → ℕ → ℕ
spread_hits hits ports =
    if ltb 1 ports then (if hits % ports == 0 then hits / ports else hits / ports + 1) else hits

unfoldable pub row_ports : AggregateRow → ℕ
row_ports row = if row.port_count == 0 then 1 else row.port_count

-- `buildMetrics`
unfoldable pub worker_metrics : (f : Float) → WorkerConfig → ℕ → AggregateRow → IpMetrics f
unfolding capped_window established base_hits spread_hits row_ports
worker_metrics f cfg now row =
    let w = capped_window cfg now row in
    record {
      syn_count = row.syn_count;
      ack_count = row.ack_count;
      rst_count = 0;
      failed_handshakes = row.failed_handshakes;
      unique_ports = row_ports row;
      total_connections = row.syn_count + row.ack_count;
      window_start = w.0;
      window_end = w.1;
      established_connections = established row.syn_count row.ack_count row.failed_handshakes;
      previous_score = row.max_threat_score;
      last_seen = w.1;
      service_ports = [];
      max_port_hits = spread_hits (base_hits row) (row_ports row);
      primary_port = 0;
      cumulative_unique_ports = row_ports row;
      cumulative_window_hours = f.hours (pos (w.1 - w.0));
      direction = Direction.inbound;
    }

-- A score that is written back.
pub record ScoreUpdate (f : Float) : Type 0 where
  pub source_ip : Str
  pub score : ThreatScore f

-- The loop of `scoreServerTraffic`: rows with too few signals are passed over.
unfoldable pub score_rows :
    (f : Float) → ThreatScorer f → WorkerConfig → ℕ → List AggregateRow → List (ScoreUpdate f)
unfolding worker_metrics
score_rows f ts cfg now [] = []
score_rows f ts cfg now (row ∷ rows) =
    let rest = score_rows f ts cfg now rows in
    if ltb (row.syn_count + row.ack_count + row.failed_handshakes) cfg.min_events
    then rest
    else record {
      source_ip = row.source_ip;
      score = calculate_score f ts now (worker_metrics f cfg now row);
    }
      ∷ rest

-- `scoreServerTraffic`; `none` is a failed query.
unfoldable pub score_server_traffic :
    (f : Float)
    → ThreatScorer f
    → WorkerConfig
    → ℕ
    → Option (List AggregateRow)
    → Option (List (ScoreUpdate f))
unfolding score_rows
score_server_traffic f ts cfg now rows = elim rows [
  | none ↦ none
  | some rs ↦ some (score_rows f ts cfg now rs)
]

-- A row of `GetBlockableIPs`: the server, and the user who is told, if any.
pub record BlockableRow : Type 0 where
  pub server_id : Str
  pub user_id : Option Str
  pub source_ip : Str

-- `processBlockableTraffic` of one server: how many rows are its own, and who is told of which address.
unfoldable pub process_blockable_traffic : Str → List BlockableRow → ℕ × List (Str × Str)
process_blockable_traffic server [] = (0, [])
process_blockable_traffic server (row ∷ rows) =
    let rest = process_blockable_traffic server rows in
    if str_eq row.server_id server
    then (
      rest.0 + 1,
      elim row.user_id [ none ↦ rest.1 | some user ↦ (user, row.source_ip) ∷ rest.1 ],
    )
    else rest

-- The estimate of the busiest port is the least number of hits that, on each port, covers them all.
pub spread_hits_least :
    (hits ports : ℕ)
    → 0 < ports
    → (hits ≤ spread_hits hits ports * ports) × (spread_hits hits ports * ports < hits + ports)
unfolding spread_hits
spread_hits_least hits ports p = grind arith

-- The window that is scored is no longer than the interval of the worker, and ends where the traffic
-- does.
pub capped_window-le :
    (cfg : WorkerConfig) (now : ℕ) (row : AggregateRow)
    → 0 < cfg.time_window_mins
    → ((capped_window cfg now row).1 - (capped_window cfg now row).0
        ≤ cfg.time_window_mins * minute)
      × ((capped_window cfg now row).1 ≡ or_else row.window_end now)
unfolding capped_window
capped_window-le cfg now row p = ground arith
