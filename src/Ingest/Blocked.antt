-- ===== src/Ingest/Blocked.antt =====
-- backend/internal/api/grpc_handlers.go: `ReportBlockedIP`, the record of a block that an agent reports.
-- Geolocation and the message to the dashboard are left out.
use kerneleye.Base.{
  ℕ, ◌≡◌, refl, Bool, true, false, not, ◌&&◌, ◌||◌, Option, none, some, List, [], ◌∷◌, All, length,
  ltb, ◌==◌, if◌then◌else◌, arith, Option-cases, Bool-cases, inl, inr, ◌⊎◌,
}
use kerneleye.Base.Str.{Str, str, str_eq}
use kerneleye.Base.Int.{ℤ, pos, ltb_ℤ, leb_ℤ, pos_part}
use kerneleye.Network.{Protocol}
use kerneleye.Services.{service_from_port}
use kerneleye.ApiKey.{Keys, Server, Checked, valid, invalid, validate_api_key}
use kerneleye.Ingest.{to_i32}
use kerneleye.Ingest.Submit.{Code, unauthenticated, invalid_argument, internal}

pub data BlockAction : Type 0 where
  block rate_limit allow : BlockAction

-- `BlockedIPEvent`
pub record BlockedIpEvent : Type 0 where
  pub api_key : Str
  pub ip_address : Str
  pub action : BlockAction
  pub duration_seconds : ℕ
  pub reason : Str
  pub target_port : ℕ
  pub protocol : Protocol
  pub service_name : Str

-- A row of the traffic history.
pub record TrafficRow : Type 0 where
  pub server_id : Str
  pub direction : Str
  pub destination_port : ℤ
  pub protocol : Str
  pub service_name : Str

-- Port, service and protocol of a block; `none` is NULL.
pub record Context : Type 0 where
  pub target_port : Option ℤ
  pub service_name : Option Str
  pub protocol : Option Str

-- An active block of the address.
pub record ActiveBlock : Type 0 where
  pub id : Str
  pub expires_at : Option ℤ
  pub context : Context

-- What is written for a new block.
pub record CreateBlock : Type 0 where
  pub server_id : Str
  pub ip_address : Str
  pub threat_score : ℕ
  pub threat_level : Str
  pub reason : Str
  pub context : Context
  pub expires_at : Option ℤ
  pub duration_seconds : ℕ
  pub is_auto_blocked : Bool
  pub enforcement_type : Str

pub data Write : Type 0 where
  create : CreateBlock → Write
  update_expiry : Str → Option ℤ → ℕ → Str → Write
  update_context : Str → Context → Write

-- The database's answers to one request; `none` and `[]` stand for errors as well, as in the code.
pub record Records : Type 0 where
  pub keys : Keys
  pub find : Str → Option Server
  pub parse_addr : Str → Option Str
  pub active : Str → Option ActiveBlock
  pub history : Str → List TrafficRow
  pub prior : Str → Option Context
  pub creates : CreateBlock → Bool

unfoldable pub normalize_protocol_string : Str → Str
normalize_protocol_string p =
    if str_eq p (str "tcp") || str_eq p (str "TCP")
    then str "TCP"
    else if str_eq p (str "udp") || str_eq p (str "UDP")
    then str "UDP"
    else if str_eq p (str "icmp") || str_eq p (str "ICMP")
    then str "ICMP"
    else str "UNKNOWN"

abbrev pub is_inbound : TrafficRow → Bool
is_inbound r = str_eq r.direction (str "inbound")

-- The first row that passes a test.
unfoldable pub first_row : (TrafficRow → Bool) → List TrafficRow → Option TrafficRow
first_row p [] = none
first_row p (r ∷ rows) = if p r then some r else first_row p rows

-- `best` of `enrichContextFromHistory`: an inbound row of this server, or else any inbound row.
unfoldable pub best_row : Str → List TrafficRow → Option TrafficRow
unfolding first_row
best_row server rows = elim (first_row (λ r. str_eq r.server_id server && is_inbound r) rows) [
  | some r ↦ some r
  | none ↦ first_row is_inbound rows
]

-- Its result: port, service, protocol; zero and empty if there is none.
pub record Enriched : Type 0 where
  pub port : ℤ
  pub service : Str
  pub proto : Str

unfoldable pub enrich_context_from_history : Str → List TrafficRow → Enriched
unfolding best_row normalize_protocol_string
enrich_context_from_history server rows = elim (best_row server rows) [
  | none ↦ record { port = pos 0; service = []; proto = [] }
  | some r ↦ record {
    port = r.destination_port;
    service =
        if length r.service_name == 0 && ltb_ℤ (pos 0) r.destination_port
        then service_from_port (pos_part r.destination_port)
        else r.service_name;
    proto = normalize_protocol_string r.protocol;
  }
]

abbrev pub known : Str → Bool
known p = not (length p == 0) && not (str_eq p (str "UNKNOWN"))

abbrev pub nonempty : Str → Option Str
nonempty s = if length s == 0 then none else some s

-- `pgtype.Int4{…, Valid: port > 0}` and its like.
unfoldable pub nullable : ℤ → Str → Str → Context
nullable port service proto = record {
  target_port = if ltb_ℤ (pos 0) port then some port else none;
  service_name = nonempty service;
  protocol = if known proto then some proto else none;
}

unfoldable pub lacks : Context → Bool
lacks c =
    elim c.target_port [ none ↦ true | some _ ↦ false ]
    || elim c.service_name [ none ↦ true | some _ ↦ false ]
    || elim c.protocol [ none ↦ true | some _ ↦ false ]

-- The update of a block that is active: permanent, and its context filled in from the history.
unfoldable pub update_block : List TrafficRow → Str → ActiveBlock → List Write
unfolding enrich_context_from_history nullable lacks
update_block rows server b =
    let e = enrich_context_from_history server rows in
    update_expiry b.id none 0 (str "permanent")
    ∷ (if lacks b.context && (ltb_ℤ (pos 0) e.port || ltb 0 (length e.service) || known e.proto)
        then update_context b.id (nullable e.port e.service e.proto) ∷ []
        else [])

unfoldable pub protocol_str : Protocol → Str
protocol_str Protocol.tcp = str "TCP"
protocol_str Protocol.udp = str "UDP"
protocol_str Protocol.icmp = str "ICMP"
protocol_str Protocol.unknown = str "UNKNOWN"

-- Port, service and protocol while they are filled in.
unfoldable pub from_history : Enriched → Enriched → Enriched
from_history e c = record {
  port = if ltb_ℤ (pos 0) e.port && leb_ℤ c.port (pos 0) then e.port else c.port;
  service = if ltb 0 (length e.service) && length c.service == 0 then e.service else c.service;
  proto = if known e.proto && str_eq c.proto (str "UNKNOWN") then e.proto else c.proto;
}

abbrev pub or_else {ℓ} : {A : Type ℓ} → Option A → A → A
or_else none a = a
or_else (some b) a = b

unfoldable pub from_prior : Option Context → Enriched → Enriched
from_prior none c = c
from_prior (some p) c =
    if leb_ℤ c.port (pos 0) || length c.service == 0
    then record {
      port = if leb_ℤ c.port (pos 0) then or_else p.target_port c.port else c.port;
      service = if length c.service == 0 then or_else p.service_name c.service else c.service;
      proto = if str_eq c.proto (str "UNKNOWN") then or_else p.protocol c.proto else c.proto;
    }
    else c

-- The request's own context.
unfoldable pub reported_context : BlockedIpEvent → Enriched
unfolding protocol_str
reported_context req = record {
  port = to_i32 req.target_port;
  service =
      if length req.service_name == 0 && ltb 0 req.target_port
      then service_from_port req.target_port
      else req.service_name;
  proto = protocol_str req.protocol;
}

unfoldable pub block_context : Records → Server → Str → BlockedIpEvent → Enriched
unfolding reported_context from_history from_prior enrich_context_from_history
block_context db server ip req =
    let c = reported_context req in
    if leb_ℤ c.port (pos 0) || length c.service == 0 || str_eq c.proto (str "UNKNOWN")
    then from_prior (db.prior ip)
        (from_history (enrich_context_from_history server.id (db.history ip)) c)
    else c

unfoldable pub is_auto_blocked : BlockAction → Bool
is_auto_blocked allow = false
is_auto_blocked block = true
is_auto_blocked rate_limit = true

unfoldable pub new_block : Records → Server → Str → BlockedIpEvent → CreateBlock
unfolding block_context nullable is_auto_blocked
new_block db server ip req =
    let c = block_context db server ip req in
    record {
      server_id = server.id;
      ip_address = ip;
      threat_score = 100;
      threat_level = str "malicious";
      reason = req.reason;
      context = nullable c.port c.service c.proto;
      expires_at = none;
      duration_seconds = 0;
      is_auto_blocked = is_auto_blocked req.action;
      enforcement_type = str "permanent";
    }

-- The error that is answered, if any, and what is written.
pub record Recorded : Type 0 where
  pub error : Option Code
  pub writes : List Write

unfoldable pub record_block_of : Records → Server → Str → BlockedIpEvent → Recorded
unfolding update_block new_block
record_block_of db server ip req = elim (db.active ip) [
  | some b ↦ record { error = none; writes = update_block (db.history ip) server.id b }
  | none ↦
      if db.creates (new_block db server ip req)
      then record { error = none; writes = create (new_block db server ip req) ∷ [] }
      else record { error = some internal; writes = [] }
]

-- Once the key was checked, the address is parsed.
unfoldable pub for_server : Records → BlockedIpEvent → Checked → Recorded
unfolding record_block_of
for_server db req (invalid e) = record { error = some unauthenticated; writes = [] }
for_server db req (valid server) = elim (db.parse_addr req.ip_address) [
  | none ↦ record { error = some invalid_argument; writes = [] }
  | some ip ↦ record_block_of db server ip req
]

-- `ReportBlockedIP`
unfoldable pub report_blocked_ip : Records → BlockedIpEvent → Recorded
unfolding for_server
report_blocked_ip db req = for_server db req (validate_api_key db.keys db.find req.api_key)

-- A write that makes a block permanent, or only fills in its context.
abbrev pub IsPermanent : Write → Type 0
IsPermanent (create b) =
    (b.expires_at ≡ none)
    × (b.enforcement_type ≡ str "permanent")
    × (b.threat_level ≡ str "malicious")
    × (b.threat_score ≡ 100)
IsPermanent (update_expiry id expires duration kind) =
    (expires ≡ none) × (duration ≡ 0) × (kind ≡ str "permanent")
IsPermanent (update_context id c) = Unit {0}

update_block-IsPermanent :
    (rows : List TrafficRow) (server : Str) (b : ActiveBlock)
    → All IsPermanent (update_block rows server b)
unfolding update_block
update_block-IsPermanent rows server b = ((refl, refl, refl), tail _ _)
  where
    tail : (t : Bool) (c : Context) → All IsPermanent (if t then update_context b.id c ∷ [] else [])
    tail true c = (tt, tt)
    tail false c = tt

record_block_of-IsPermanent :
    (db : Records) (server : Server) (ip : Str) (req : BlockedIpEvent)
    → All IsPermanent (record_block_of db server ip req).writes
unfolding record_block_of new_block
record_block_of-IsPermanent db server ip req = elim (Option-cases (db.active ip)) [
  | inl fresh ↦ elim (Bool-cases (db.creates (new_block db server ip req))) [
    | inl e ↦ rw (fresh, e, record_block_of, All) ((refl, refl, refl, refl), tt)
    | inr e ↦ rw (fresh, e, record_block_of, All) tt
  ]
  | inr (b, e) ↦ rw (e, record_block_of, All) (update_block-IsPermanent (db.history ip) server.id b)
]

for_server-IsPermanent :
    (db : Records) (req : BlockedIpEvent) (c : Checked)
    → All IsPermanent (for_server db req c).writes
unfolding for_server
for_server-IsPermanent db req (invalid e) = tt
for_server-IsPermanent db req (valid server) = elim (Option-cases (db.parse_addr req.ip_address)) [
  | inl e ↦ rw (e, for_server, All) tt
  | inr (ip, e) ↦ rw (e, for_server, All) (record_block_of-IsPermanent db server ip req)
]

-- Whatever action and duration an agent reports, a rate limit and an allowance included, the block that is
-- recorded is permanent, of level malicious and score 100, and a block that is active becomes permanent.
pub report_blocked_ip-IsPermanent :
    (db : Records) (req : BlockedIpEvent) → All IsPermanent (report_blocked_ip db req).writes
unfolding report_blocked_ip
report_blocked_ip-IsPermanent db req =
    for_server-IsPermanent db req (validate_api_key db.keys db.find req.api_key)

first_row_lem :
    (p : TrafficRow → Bool) (rows : List TrafficRow) (r : TrafficRow)
    → first_row p rows ≡ some r
    → p r ≡ true
unfolding first_row
first_row_lem p [] r h = cc
first_row_lem p (q ∷ rows) r h = elim (Bool-cases (p q)) [
  | inl e ↦ ground (arith, e, h)
  | inr e ↦ first_row_lem p rows r (ground (arith, e, h))
]

-- The row that fills in a block's context is inbound, and it is one of the reporting server if that
-- server has an inbound row.
pub best_row-prefers :
    (server : Str) (rows : List TrafficRow) (r : TrafficRow)
    → best_row server rows ≡ some r
    → (is_inbound r ≡ true)
      × ((str_eq r.server_id server ≡ true)
          ⊎ (first_row (λ q. str_eq q.server_id server && is_inbound q) rows ≡ none))
unfolding best_row
best_row-prefers server rows r h =
    elim (Option-cases (first_row (λ q. str_eq q.server_id server && is_inbound q) rows)) [
      | inl e ↦ (first_row_lem is_inbound rows r (ground (arith, e, h)), inr e)
      | inr (q, e) ↦
          let both =
            first_row_lem (λ q. str_eq q.server_id server && is_inbound q) rows r
              (ground (arith, e, h)) in
          (ground (arith, both), inl (ground (arith, both)))
    ]
