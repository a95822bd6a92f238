-- ===== src/Ingest/Register.antt =====
-- backend/internal/api/grpc_handlers.go: `Heartbeat`, `Register`, `GetStatus`, `ReportBlockedPacket` and
-- `ReportIntegrity`, and what the agent does on their answers (agent/flush.go, agent/aggregator_connect.go).
use kerneleye.Base.{
  ◌≡◌, refl, Bool, true, false, not, ◌||◌, Option, none, some, List, [], ◌∷◌, length, ◌==◌,
  if◌then◌else◌, arith, Bool-cases, Option-cases, inl, inr, All,
}
use kerneleye.Base.Str.{Str, str, str_eq, str_eq_sound}
use kerneleye.Float.{Float}
use kerneleye.Network.{Protocol}
use kerneleye.Proto.{TrafficBatch}
use kerneleye.ApiKey.{
  Keys, Server, Checked, valid, invalid, validate_api_key, Decoded, identity, refused,
  decode_api_key, is_revoked, KeyError, Refusal,
}
use kerneleye.ApiKey.RoundTrip.{validate_api_key_sound}
use kerneleye.Ingest.Submit.{
  Ingester, Code, unauthenticated, permission_denied, invalid_argument, internal, not_found, status,
  submit_traffic,
}

-- A row of `servers` with what `Register` writes, and the messages to the user's dashboard.
pub data ServerWrite : Type 0 where
  heartbeat : Str → Option Str → ServerWrite
  reenroll : Str → Str → Str → Str → ServerWrite
  create_pending : Str → Str → Str → Str → Str → Option Str → ServerWrite

pub record HeartbeatRequest : Type 0 where
  pub api_key : Str
  pub ip_address : Str

-- `success` and `message` of a response, or an error.
pub data Spoken : Type 0 where
  said : Bool → Str → Spoken
  error : Code → Spoken

pub record Beaten : Type 0 where
  pub answer : Spoken
  pub writes : List ServerWrite

-- The address of a request; what cannot be parsed counts as absent.
unfoldable pub parse_request_ip : (Str → Option Str) → Str → Option Str
parse_request_ip parse ip = if length ip == 0 then none else parse ip

unfoldable pub beat : (Str → Option Str) → Bool → HeartbeatRequest → Checked → Beaten
unfolding parse_request_ip
beat parse updates req (invalid e) = record { answer = said false (str "invalid_key"); writes = [] }
beat parse updates req (valid server) =
    if str_eq server.status (str "rejected") || str_eq server.status (str "deleted")
    then record { answer = said false server.status; writes = [] }
    else if updates
    then record {
      answer = said true (str "Heartbeat received");
      writes = heartbeat req.api_key (parse_request_ip parse req.ip_address) ∷ [];
    }
    else record { answer = error internal; writes = [] }

-- `Heartbeat`; `updates` is whether the database takes the update.
unfoldable pub heartbeat_handler :
    Keys → (Str → Option Server) → (Str → Option Str) → Bool → HeartbeatRequest → Beaten
unfolding beat
heartbeat_handler k find parse updates req =
    beat parse updates req (validate_api_key k find req.api_key)

-- `Stop` of the agent after a heartbeat (agent/aggregator_connect.go, `SendHeartbeat`).
unfoldable pub stops_agent : Spoken → Bool
stops_agent (said success msg) = not success
stops_agent (error code) = false

pub record RegisterRequest : Type 0 where
  pub user_id : Str
  pub hostname : Str
  pub ip_address : Str

-- The database and the generators that `Register` asks. `valid_uuid` is `ToPgUUID` being valid.
pub record Registry : Type 0 where
  pub keys : Keys
  pub valid_uuid : Str → Bool
  pub by_key : Str → Option Server
  pub by_user_and_ip : Str → Str → Option Server
  pub parse_addr : Str → Option Str
  pub new_token : Str
  pub reenrolls : Bool
  pub creates : Bool

pub data Registration : Type 0 where
  registered : Str → Str → Str → Registration
  failed : Code → Registration

pub record Registered : Type 0 where
  pub answer : Registration
  pub writes : List ServerWrite

unfoldable pub create_server : Registry → RegisterRequest → Str → Str → Option Str → Registered
create_server r req user server ip =
    if r.creates
    then record {
      answer =
          registered (str "Registration successful, pending approval") r.new_token (str "pending");
      writes = create_pending server user req.hostname req.user_id r.new_token ip ∷ [];
    }
    else record { answer = failed internal; writes = [] }

unfoldable pub reenroll_server : Registry → RegisterRequest → Server → Registered
reenroll_server r req s =
    if r.reenrolls
    then record {
      answer = registered (str "Server re-enrolled successfully") r.new_token s.status;
      writes = reenroll s.id req.user_id req.hostname r.new_token ∷ [];
    }
    else record { answer = failed internal; writes = [] }

-- The user's server at the address of the request.
unfoldable pub server_at : Registry → Str → Option Str → Option Server
server_at r user none = none
server_at r user (some ip) = r.by_user_and_ip user ip

unfoldable pub enroll : Registry → RegisterRequest → Str → Str → Registered
unfolding server_at create_server reenroll_server parse_request_ip
enroll r req user server =
    let ip = parse_request_ip r.parse_addr req.ip_address in
    elim (server_at r user ip) [
      | none ↦ create_server r req user server ip
      | some s ↦
          if str_eq s.id server then reenroll_server r req s else create_server r req user server ip
    ]

unfoldable pub register_decoded : Registry → RegisterRequest → Decoded → Registered
unfolding enroll
register_decoded r req (refused e) = record { answer = failed invalid_argument; writes = [] }
register_decoded r req (identity user server) =
    if not (r.valid_uuid server)
    then record { answer = failed invalid_argument; writes = [] }
    else elim (r.by_key req.user_id) [
      | some s ↦ record {
        answer = registered (str "Server already registered") s.client_token s.status;
        writes = [];
      }
      | none ↦ enroll r req user server
    ]

-- `Register`; the field UserId of the request carries the API key.
unfoldable pub register : Registry → RegisterRequest → Registered
unfolding register_decoded
register r req = register_decoded r req (decode_api_key r.keys req.user_id)

pub data Status : Type 0 where
  known : Str → Str → Status
  unknown : Code → Status

-- `GetStatus`; `by_token` is `GetServerByClientToken`.
unfoldable pub get_status : (Str → Option Server) → Str → Status
get_status by_token token = elim (by_token token) [
  | none ↦ unknown not_found
  | some s ↦ known s.status (if str_eq s.status (str "active") then str "configured" else [])
]

pub data PacketReason : Type 0 where
  unknown_reason blocklist cidr rate_limit : PacketReason

unfoldable pub reason_text : PacketReason → Str
reason_text blocklist = str "blocklist"
reason_text cidr = str "cidr"
reason_text rate_limit = str "rate_limit"
reason_text unknown_reason = str "unknown"

unfoldable pub packet_protocol : Protocol → Str
packet_protocol Protocol.udp = str "UDP"
packet_protocol Protocol.icmp = str "ICMP"
packet_protocol Protocol.tcp = str "TCP"
packet_protocol Protocol.unknown = str "TCP"

-- The guard of `ReportBlockedPacket` and of `ReportIntegrity`: the server, or an error.
unfoldable pub active_server : Checked → Option Code
active_server (invalid e) = some unauthenticated
active_server (valid server) =
    if str_eq server.status (str "active") then none else some permission_denied

-- `ReportBlockedPacket`: an error, or the protocol and the reason that the dashboard is told.
unfoldable pub report_blocked_packet :
    Checked → Protocol → PacketReason → Option Code × List (Str × Str)
unfolding active_server packet_protocol reason_text
report_blocked_packet c protocol reason = elim (active_server c) [
  | some code ↦ (some code, [])
  | none ↦ (none, (packet_protocol protocol, reason_text reason) ∷ [])
]

-- `ReportIntegrity`: an error, or the kind of the event that the dashboard is told; `healthy` is that of
-- the report's status, `none` if it has none.
unfoldable pub report_integrity : Checked → Option Bool → Option Code × List Str
unfolding active_server
report_integrity c healthy = elim (active_server c) [
  | some code ↦ (some code, [])
  | none ↦ elim healthy [
    | none ↦ (some invalid_argument, [])
    | some ok ↦ (none, (if ok then str "integrity_report" else str "integrity_alert") ∷ [])
  ]
]

-- A server that is created or enrolled again is the one that the signed key names.
abbrev pub Names : Str → ServerWrite → Type 0
Names server (create_pending id user hostname key token ip) = id ≡ server
Names server (reenroll id key hostname token) = id ≡ server
Names server (heartbeat key ip) = ⊥

module _ (r : Registry) (req : RegisterRequest) where
  create_server-Names :
      (user server : Str) (ip : Option Str)
      → All (Names server) (create_server r req user server ip).writes
  unfolding create_server
  create_server-Names user server ip = elim (Bool-cases r.creates) [
    | inl e ↦ rw (e, create_server, All) (refl, tt)
    | inr e ↦ rw (e, create_server, All) tt
  ]

  reenroll_server-Names :
      (server : Str) (s : Server)
      → s.id ≡ server
      → All (Names server) (reenroll_server r req s).writes
  unfolding reenroll_server
  reenroll_server-Names server s same = elim (Bool-cases r.reenrolls) [
    | inl e ↦ rw (e, reenroll_server, All) (same, tt)
    | inr e ↦ rw (e, reenroll_server, All) tt
  ]

  enroll-Names : (user server : Str) → All (Names server) (enroll r req user server).writes
  unfolding enroll
  enroll-Names user server = elim (Option-cases (server_at r user ip)) [
    | inl e ↦ rw (e, enroll, All) (create_server-Names user server ip)
    | inr (s, e) ↦ elim (Bool-cases (str_eq s.id server)) [
      | inl same ↦
          rw (e, same, enroll, All) (reenroll_server-Names server s (str_eq_sound s.id server same))
      | inr other ↦ rw (e, other, enroll, All) (create_server-Names user server ip)
    ]
  ]
    where
      ip : Option Str
      ip = parse_request_ip r.parse_addr req.ip_address

  register_decoded-Names :
      (user server : Str)
      → All (Names server) (register_decoded r req (identity user server)).writes
  unfolding register_decoded
  register_decoded-Names user server = elim (Bool-cases (r.valid_uuid server)) [
    | inl ok ↦ elim (Option-cases (r.by_key req.user_id)) [
      | inl e ↦ rw (ok, e, register_decoded, All) (enroll-Names user server)
      | inr (s, e) ↦ rw (ok, e, register_decoded, All) tt
    ]
    | inr bad ↦ rw (bad, register_decoded, All) tt
  ]

  -- `Register` writes nothing for a key that is not signed, and for a signed key it writes nothing but the
  -- server that the key names: a key cannot take over another server at the same address.
  pub register-Names :
      ((e : KeyError)
        → decode_api_key r.keys req.user_id ≡ refused e
        → (register r req).writes ≡ [])
      × ((user server : Str)
          → decode_api_key r.keys req.user_id ≡ identity user server
          → All (Names server) (register r req).writes)
  unfolding register
  register-Names = (
    λ e h. rw (h, register_decoded) refl,
    λ user server h. rw h (register_decoded-Names user server),
  )

check_revoked :
    (k : Keys) (find : Str → Option Server) (key : Str) (s : Server) (c : Checked)
    → validate_api_key k find key ≡ c
    → find key ≡ some s
    → is_revoked s ≡ true
    → (e : Refusal) × (c ≡ invalid e)
check_revoked k find key s (invalid e) h found revoked = (e, refl)
check_revoked k find key s (valid t) h found revoked =
    let q = validate_api_key_sound k find key t h in
    absurd (ground (arith, q.0, q.2, found, revoked))

-- The traffic of a server whose row is deleted, rejected or suspended is answered by Unauthenticated, and
-- its heartbeat by a failure, on which the agent stops.
pub revoked-stops :
    (f : Float) (h : Ingester f) (b : TrafficBatch) (updates : Bool) (ip : Str) (s : Server)
    → h.find b.api_key ≡ some s
    → is_revoked s ≡ true
    → ((submit_traffic f h b).answer ≡ status unauthenticated (str "Invalid API Key"))
      × (stops_agent
            (heartbeat_handler h.keys h.find h.parse_addr updates
              (record { api_key = b.api_key; ip_address = ip })).answer
          ≡ true)
unfolding submit_traffic heartbeat_handler beat stops_agent
revoked-stops f h b updates ip s found revoked =
    let q =
      check_revoked h.keys h.find b.api_key s (validate_api_key h.keys h.find b.api_key) refl found
        revoked in
    (rw (q.1, submit_traffic) refl, rw (q.1, beat) refl)
