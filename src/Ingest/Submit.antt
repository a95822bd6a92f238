-- ===== src/Ingest/Submit.antt =====
-- backend/internal/api/grpc_handlers.go: `SubmitTraffic`.
use kerneleye.Base.{
  ℕ, ◌-◌, Bool, not, Option, none, some, List, [], ◌∷◌, ◌++◌, length, ltb, ◌==◌, if◌then◌else◌,
}
use kerneleye.Base.Str.{Str, str, str_eq}
use kerneleye.Base.Int.{ℤ, leb_ℤ}
use kerneleye.Float.{Float}
use kerneleye.Scoring.{ThreatScore, ThreatScorer, ThreatLevel, ThreatType}
use kerneleye.Scoring.Score.{calculate_score}
use kerneleye.Proto.{ConnectionEvent, TrafficBatch, TrafficResponse}
use kerneleye.ApiKey.{Keys, Server, valid, invalid, validate_api_key}
use kerneleye.Flush.{Calendar}
use kerneleye.Ingest.{
  build_metrics_from_event, score_from_agent_event, protocol_to_string, direction_label,
  sanitize_process_name, resolve_service_name, to_i32,
}

pub data Code : Type 0 where
  unauthenticated permission_denied invalid_argument internal not_found : Code

abbrev pub max_batch_size : ℕ
max_batch_size = 10000

-- A row of `traffic_events`; the counts are int32 columns.
pub record StoredEvent : Type 0 where
  pub server_id : Str
  pub source_ip : Str
  pub destination_ip : Option Str
  pub destination_port : ℤ
  pub protocol : Str
  pub direction : Str
  pub syn_count : ℤ
  pub ack_count : ℤ
  pub failed_handshakes : ℤ
  pub unique_ports : ℤ
  pub bytes_in : ℕ
  pub bytes_out : ℕ
  pub threat_score : ℤ
  pub threat_level : ThreatLevel
  pub threat_type : ThreatType
  pub first_seen : ℕ
  pub last_seen : ℕ
  pub service_name : Str

-- The handler and what it asks: the API keys and the servers under them, the scorer, `AddDate`, the clock,
-- `netip.ParseAddr`, whether an upsert goes through, and decimal numerals.
pub record Ingester (f : Float) : Type 0 where
  pub keys : Keys
  pub find : Str → Option Server
  pub scorer : ThreatScorer f
  pub calendar : Calendar
  pub now : ℕ
  pub parse_addr : Str → Option Str
  pub upserts : StoredEvent → Bool
  pub numeral : ℕ → Str

-- The score that is stored: the agent's, unless the backend's is higher.
unfoldable pub judged : (f : Float) → Ingester f → ConnectionEvent → ThreatScore f
unfolding build_metrics_from_event score_from_agent_event
judged f h e =
    let score = calculate_score f h.scorer h.now (build_metrics_from_event f h.calendar h.now e) in
    elim (score_from_agent_event f e) [
      | none ↦ score
      | some agent ↦ if leb_ℤ score.score agent.score then agent else score
    ]

-- The row of an event whose source address is `source`.
unfoldable pub stored_event :
    (f : Float) → Ingester f → Server → ConnectionEvent → Str → StoredEvent
unfolding judged to_i32 protocol_to_string direction_label sanitize_process_name
    resolve_service_name
stored_event f h server e source = record {
  server_id = server.id;
  source_ip = source;
  destination_ip = if length e.destination_ip == 0 then none else h.parse_addr e.destination_ip;
  destination_port = to_i32 e.destination_port;
  protocol = protocol_to_string e.protocol;
  direction = direction_label e.direction;
  syn_count = to_i32 e.syn_count;
  ack_count = to_i32 e.ack_count;
  failed_handshakes = to_i32 e.failed_handshakes;
  unique_ports = to_i32 e.unique_ports_count;
  bytes_in = e.bytes_in;
  bytes_out = e.bytes_out;
  threat_score = (judged f h e).score;
  threat_level = (judged f h e).level;
  threat_type = (judged f h e).kind;
  first_seen = e.first_seen;
  last_seen = e.last_seen;
  service_name =
      resolve_service_name (sanitize_process_name e.process_name) e.destination_port e.protocol;
}

-- What one round of the loop stores: nothing if the source is no address or the upsert fails.
unfoldable pub ingest_event : (f : Float) → Ingester f → Server → ConnectionEvent → List StoredEvent
unfolding stored_event
ingest_event f h server e = elim (h.parse_addr e.source_ip) [
  | none ↦ []
  | some source ↦
      if h.upserts (stored_event f h server e source)
      then stored_event f h server e source ∷ []
      else []
]

unfoldable pub ingest_events :
    (f : Float) → Ingester f → Server → List ConnectionEvent → List StoredEvent
unfolding ingest_event
ingest_events f h server [] = []
ingest_events f h server (e ∷ es) = ingest_event f h server e ++ ingest_events f h server es

pub data Answer : Type 0 where
  response : TrafficResponse → Answer
  status : Code → Str → Answer

pub record Submitted : Type 0 where
  pub answer : Answer
  pub stored : List StoredEvent

abbrev pub rejected : Code → Str → Submitted
rejected code msg = record { answer = status code msg; stored = [] }

unfoldable pub respond : (f : Float) → Ingester f → ℕ → ℕ → TrafficResponse
respond f h events processed =
    let dropped = events - processed in
    record {
      success = dropped == 0;
      message =
          if dropped == 0
          then str "Traffic data processed"
          else str "Traffic batch partially processed: processed="
            ++ (h.numeral processed ++ (str " dropped=" ++ h.numeral dropped));
      events_processed = processed;
    }

unfoldable pub accept_batch : (f : Float) → Ingester f → Server → TrafficBatch → Submitted
unfolding ingest_events respond
accept_batch f h server b =
    if not (str_eq server.status (str "active"))
    then rejected permission_denied (str "Server not active")
    else if ltb max_batch_size (length b.events)
    then rejected invalid_argument
        (str "Batch too large: " ++ (h.numeral (length b.events) ++ str " events (max 10000)"))
    else let stored = ingest_events f h server b.events in
      record { answer = response (respond f h (length b.events) (length stored)); stored = stored }

-- `SubmitTraffic`
unfoldable pub submit_traffic : (f : Float) → Ingester f → TrafficBatch → Submitted
unfolding accept_batch
submit_traffic f h b = elim (validate_api_key h.keys h.find b.api_key) [
  | invalid e ↦ rejected unauthenticated (str "Invalid API Key")
  | valid server ↦ accept_batch f h server b
]
