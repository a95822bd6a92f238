-- ===== src/Tests/Backend.antt =====
-- Runs of the theorems on the API keys, the ingestion and the dashboard's guard.
use kerneleye.Base.{
  drop, ◌+◌, ◌-◌, ◌≡◌, ◌≢◌, ◌↔◌, refl, true, false, Option, none, some, [], ◌∷◌, ◌++◌, map, length,
  All, ◌==◌, arith, ap, if◌then◌else◌,
}
use kerneleye.Base.Str.{Str, str, str_eq, str_eq_refl, starts_with}
use kerneleye.Proto.{ConnectionEvent, TrafficBatch, TrafficResponse}
use kerneleye.Scoring.{ThreatScore}
use kerneleye.SafeStats.{IpStats}
use kerneleye.Aggregator.{EventStats}
use kerneleye.Flush.{Calendar, CalendarLaws, is_fully_accepted}
use kerneleye.Flush.Snapshot.{scored_metrics, build_event}
use kerneleye.ApiKey.{
  Keys, Server, identity, valid, payload, signature, generate_api_key, decode_api_key, is_revoked,
  validate_api_key, check_parts, check_server, split_dots, prepend,
}
use kerneleye.ApiKey.RoundTrip.{
  KeysLaws, Undotted, decode-generate, decode_api_key-signed, validate_api_key_sound,
}
use kerneleye.Ingest.{build_metrics_from_event}
use kerneleye.Ingest.Submit.{
  Ingester, response, submit_traffic, accept_batch, respond, ingest_events, ingest_event,
}
use kerneleye.Ingest.Accept.{submit_traffic-accepted_iff}
use kerneleye.Ingest.Agree.{Fits, SameCounts, sent, build_metrics_from_event-agrees}
use kerneleye.Api.Auth.{
  Claims, AuthEnv, Headers, dashboard, passes, auth_middleware, require_dashboard_auth, IsOwner,
  is_owner_email, dashboard_auth, bearer_token, require_dashboard_auth-IsOwner,
}
use kerneleye.Tests.Traffic.{whole, scorer}
use kerneleye.Scoring.Score.{calculate_score}
use kerneleye.Tests.{address}

-- Bytes moved past the dot, and a hash that keeps the message.
abbrev encode : Str → Str
encode s = map (λ c. c + 47) s

abbrev decode : Str → Str
decode s = map (λ c. c - 47) s

abbrev pub keys : Keys
keys = record {
  secret = str "secret";
  hmac = λ key message. message;
  encode = encode;
  decode = λ s. some (decode s);
}

decode-encode : (s : Str) → decode (encode s) ≡ s
decode-encode [] = refl
decode-encode (c ∷ s) = ground (arith, decode-encode s)

undotted : (s : Str) → All (λ c. (c == 46) ≡ false) (encode s)
undotted [] = tt
undotted (c ∷ s) = (ground arith, undotted s)

keys_laws : KeysLaws keys
keys_laws = record { decode-encode = λ s. ap some (decode-encode s); encode_undotted = undotted }

abbrev pub user : Str
user = str "ann"

abbrev pub server_id : Str
server_id = str "box"

abbrev time : Str
time = str "7"

abbrev pub agent_key : Str
agent_key =
    str "ke_"
    ++ encode (payload user server_id time ++ 46 ∷ signature keys (payload user server_id time))

made : generate_api_key keys user server_id time ≡ some agent_key
unfolding generate_api_key
made = refl

user-Undotted : Undotted user
user-Undotted = (refl, (refl, (refl, tt)))

server_id-Undotted : Undotted server_id
server_id-Undotted = (refl, (refl, (refl, tt)))

decode-generate_example : decode_api_key keys agent_key ≡ identity user server_id
decode-generate_example =
    decode-generate keys keys_laws user server_id time agent_key user-Undotted server_id-Undotted
      (refl, tt) made

decode-generate_again : decode_api_key keys agent_key ≡ identity user server_id
unfolding decode_api_key check_parts split_dots prepend payload signature starts_with str_eq
decode-generate_again = refl

abbrev pub server : Server
server = record {
  id = server_id;
  user_id = user;
  status = str "active";
  hostname = str "box";
  ip_address = none;
  client_token = str "token";
}

abbrev pub find : Str → Option Server
find key = some server

validated : validate_api_key keys find agent_key ≡ valid server
unfolding validate_api_key decode_api_key check_parts check_server split_dots prepend payload
    signature starts_with is_revoked str_eq
validated = refl

validate_api_key_sound_example :
    (find agent_key ≡ some server)
    × (decode_api_key keys agent_key ≡ identity user server_id)
    × (is_revoked server ≡ false)
    × (server.status ≢ str "deleted")
    × (server.status ≢ str "rejected")
    × (server.status ≢ str "suspended")
validate_api_key_sound_example = validate_api_key_sound keys find agent_key server validated

abbrev pub calendar : Calendar
calendar = record { year_ago = λ t. t - 365; year_ahead = λ t. t + 365 }

pub calendar_laws : CalendarLaws calendar
calendar_laws = record { ago = λ now. omega arith; ahead = λ now. omega arith }

abbrev pub entry : IpStats EventStats
entry = record {
  first_seen = 900;
  stats = record {
    protocol = 6;
    syn_count = 3;
    ack_count = 5;
    failed_handshakes = 1;
    unique_ports = 22 ∷ 443 ∷ [];
    port_counts = (22, 2) ∷ (443, 4) ∷ [];
    port_hits = (22, 2) ∷ (443, 4) ∷ [];
    bytes_in = 10;
    bytes_out = 20;
    icmp_packets_in = 0;
    icmp_packets_out = 0;
    port_bytes_in = [];
    port_bytes_out = [];
    direction = 0;
    local_ip = str "1.1.1.1";
    last_seen = 950;
    process_name = str "sshd";
  };
}

abbrev score : ThreatScore whole
score = calculate_score whole scorer 5 (scored_metrics whole calendar 1000 none entry)

entry-Fits : Fits entry.stats
entry-Fits = record {
  syn = omega arith;
  ack = omega arith;
  failed = omega arith;
  ports = omega arith;
  direction = omega arith;
}

build_metrics_from_event-agrees_example :
    SameCounts
      (build_metrics_from_event whole calendar 1000
        (sent whole calendar calendar_laws 1000 entry none score address))
      (scored_metrics whole calendar 1000 none entry)
build_metrics_from_event-agrees_example =
    build_metrics_from_event-agrees whole calendar calendar_laws 1000 entry none score address
      entry-Fits

abbrev pub event : ConnectionEvent
event = sent whole calendar calendar_laws 1000 entry none score address

-- The database takes what it gets, and only the address `address` is one.
abbrev pub ingester : Ingester whole
ingester = record {
  keys = keys;
  find = find;
  scorer = scorer;
  calendar = calendar;
  now = 1000;
  parse_addr = λ ip. if str_eq ip address then some ip else none;
  upserts = λ e. true;
  numeral = λ n. n ∷ [];
}

abbrev batch : TrafficBatch
batch = record {
  api_key = agent_key;
  events = event ∷ event ∷ [];
  total_events = 2;
  aggregation_window_seconds = 10;
}

abbrev processed : TrafficResponse
processed = record { success = true; message = str "Traffic data processed"; events_processed = 2 }

event_source : event.source_ip ≡ address
unfolding build_event
event_source = refl

active : str_eq (str "active") (str "active") ≡ true
unfolding str_eq
active = refl

answered : (submit_traffic whole ingester batch).answer ≡ response processed
unfolding submit_traffic accept_batch respond ingest_events ingest_event
answered = ground (arith, validated, active, event_source, str_eq_refl address)

submit_traffic-accepted_iff_example :
    (is_fully_accepted processed 2 ≡ true)
    ↔ (length (submit_traffic whole ingester batch).stored ≡ 2)
submit_traffic-accepted_iff_example =
    submit_traffic-accepted_iff whole ingester batch processed answered

abbrev claims : Claims
claims = record { user_id = user; email = str "ann@x" }

abbrev auth_env : AuthEnv
auth_env = record {
  keys = keys;
  find = find;
  normal = λ s. s;
  owner = str "ann@x";
  validate_jwt = λ token. some claims;
}

abbrev request : Headers
request = record { api_key = []; authorization = str "Bearer" ∷ str "jwt" ∷ []; query_token = [] }

opened : require_dashboard_auth (auth_middleware auth_env request) ≡ passes dashboard user
unfolding require_dashboard_auth auth_middleware dashboard_auth is_owner_email bearer_token str_eq
opened = refl

require_dashboard_auth-IsOwner_example :
    (dashboard ≡ dashboard)
    × (request.api_key ≡ [])
    × ((token : Str) × (bearer_token request.authorization request.query_token ≡ some token)
        × (token ≢ [])
        × ((c : Claims) × (auth_env.validate_jwt token ≡ some c)
            × (c.user_id ≡ user)
            × IsOwner auth_env c.email))
require_dashboard_auth-IsOwner_example =
    require_dashboard_auth-IsOwner auth_env request dashboard user opened

decode_api_key-signed_example :
    (t : Str) × (keys.decode (drop 3 agent_key)
      ≡ some (payload user server_id t ++ 46 ∷ signature keys (payload user server_id t)))
decode_api_key-signed_example =
    decode_api_key-signed keys agent_key user server_id decode-generate_again
