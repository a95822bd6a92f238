-- ===== src/BlockManager/Entities.antt =====
-- backend/internal/analysis/block_manager.go: the rows and entries of the block manager, how one is made of
-- another, and the reasons of a block.
use kerneleye.Base.{
  ℕ, ◌+◌, ◌*◌, ◌^◌, Bool, true, false, not, Option, none, some, List, [], ◌∷◌, ◌++◌, length, ltb,
  ◌==◌, if◌then◌else◌,
}
use kerneleye.Base.Str.{Str, str, str_eq}
use kerneleye.Base.Int.{ℤ}
use kerneleye.Signing.{Sys}
use kerneleye.Services.{service_from_port}
use kerneleye.BlockManager.Matrix.{Enforcement, permanent, Decision, Escalation}

pub record ActiveBlock : Type 0 where
  pub ip : Str
  pub server_id : Str
  pub user_id : Option Str
  pub score : ℤ
  pub reason : Str
  pub kind : Enforcement
  pub duration : ℕ
  pub blocked_at : ℕ
  pub expires_at : ℕ
  pub is_permanent : Bool

-- A row of `GetBlockableIPs`.
pub record Row : Type 0 where
  pub server_id : Str
  pub server_name : Str
  pub user_id : Option Str
  pub source_ip : Str
  pub is_v6 : Bool
  pub threat_score : ℤ
  pub threat_level : Str
  pub threat_type : Str
  pub total_syn : ℕ
  pub unique_ports : ℕ
  pub total_failed : ℕ
  pub top_target_port : ℕ
  pub top_protocol : Str
  pub top_service_name : Str

-- A line of `reasons`; the numbers are not formatted.
pub data Reason : Type 0 where
  threat : Str → Reason
  syn_count ports_scanned failed_handshakes : ℕ → Reason
  target_port : ℕ → Str → Reason
  protocol : Str → Reason
  threat_score : ℤ → Reason
  escalation : Escalation → Reason

abbrev pub one_if {ℓ} : {A : Type ℓ} → Bool → A → List A
one_if true a = a ∷ []
one_if false a = []

-- The line that depends on the type of threat.
unfoldable pub detail : Row → List Reason
detail row =
    if str_eq row.threat_type (str "syn_flood")
    then one_if (ltb 0 row.total_syn) (syn_count row.total_syn)
    else if str_eq row.threat_type (str "port_scan")
    then one_if (ltb 0 row.unique_ports) (ports_scanned row.unique_ports)
    else if str_eq row.threat_type (str "service_abuse")
    then one_if (ltb 0 row.top_target_port)
        (target_port row.top_target_port (service_from_port row.top_target_port))
    else if str_eq row.threat_type (str "failed_handshake")
    then one_if (ltb 0 row.total_failed) (failed_handshakes row.total_failed)
    else []

unfoldable pub build_block_reasons : Row → List Reason
unfolding detail
build_block_reasons row =
    one_if (not (length row.threat_type == 0)) (threat row.threat_type)
    ++ (detail row
        ++ (one_if (not (length row.top_protocol == 0)) (protocol row.top_protocol)
            ++ (threat_score row.threat_score ∷ [])))

-- `CreateBlockParams`, less the place and network columns; `none` is NULL.
pub record NewBlock : Type 0 where
  pub server_id : Str
  pub user_id : Option Str
  pub ip_address : Str
  pub ip_version : ℕ
  pub threat_score : ℤ
  pub threat_level : Str
  pub reasons : List Reason
  pub target_port : Option ℕ
  pub service_name : Option Str
  pub protocol : Option Str
  pub blocked_at : ℕ
  pub expires_at : Option ℕ
  pub duration_seconds : ℤ
  pub kind : Enforcement

abbrev pub is_permanent_kind : Enforcement → Bool
is_permanent_kind permanent = true
is_permanent_kind _ = false

abbrev non_empty : Str → Option Str
non_empty s = if length s == 0 then none else some s

-- The row that `createBlock` inserts under a decision; the clock is read at `now` for the expiry, and at
-- `inserted_at` for the column.
unfoldable pub new_block : Sys → Row → Decision → ℕ → ℕ → NewBlock
unfolding build_block_reasons
new_block sys row d now inserted_at = record {
  server_id = row.server_id;
  user_id = row.user_id;
  ip_address = row.source_ip;
  ip_version = if row.is_v6 then 6 else 4;
  threat_score = row.threat_score;
  threat_level = d.threat_level;
  reasons = build_block_reasons row ++ (escalation d.escalation ∷ []);
  target_port = if ltb 0 row.top_target_port then some row.top_target_port else none;
  service_name = non_empty (
      if length row.top_service_name == 0
      then service_from_port row.top_target_port
      else row.top_service_name);
  protocol = non_empty row.top_protocol;
  blocked_at = inserted_at;
  expires_at = if ltb 0 d.duration then some (now + d.duration) else none;
  duration_seconds = sys.int32_seconds d.duration;
  kind = d.kind;
}

-- The entry that it keeps in memory, with the same expiry; `kept_at` is a third reading of the clock.
unfoldable pub active_block : Row → Decision → ℕ → ℕ → ActiveBlock
active_block row d now kept_at = record {
  ip = row.source_ip;
  server_id = row.server_id;
  user_id = row.user_id;
  score = row.threat_score;
  reason = row.threat_type;
  kind = d.kind;
  duration = d.duration;
  blocked_at = kept_at;
  expires_at = if ltb 0 d.duration then now + d.duration else 0;
  is_permanent = is_permanent_kind d.kind;
}

-- A row of `GetAllActiveBlocks`; `expires_at` is NULL for a block without end.
pub record StoredBlock : Type 0 where
  pub ip_address : Str
  pub server_id : Str
  pub user_id : Option Str
  pub threat_score : ℤ
  pub reasons : Str
  pub kind : Enforcement
  pub duration_seconds : ℕ
  pub blocked_at : ℕ
  pub expires_at : Option ℕ

unfoldable pub of_stored : StoredBlock → ActiveBlock
of_stored b = record {
  ip = b.ip_address;
  server_id = b.server_id;
  user_id = b.user_id;
  score = b.threat_score;
  reason = b.reasons;
  kind = b.kind;
  duration = b.duration_seconds * 10 ^ 9;
  blocked_at = b.blocked_at;
  expires_at = elim b.expires_at [ none ↦ 0 | some t ↦ t ];
  is_permanent = elim b.expires_at [ none ↦ true | some t ↦ false ];
}
