-- ===== src/BlockManager.antt =====
-- backend/internal/analysis/block_manager.go: the backend's block manager. A database query is an
-- argument, its answer (`none` where it failed); what a handler writes or sends is a list of effects.
-- A time is a number of nanoseconds since Go's zero time, 0 that time itself.
pub mod Matrix
pub mod Entities
pub mod Escalates
pub mod Active
pub mod Lifetime
use kerneleye.Base.{
  ℕ, ◌+◌, ◌*◌, ◌/◌, ◌^◌, ◌≡◌, Bool, true, false, not, ◌&&◌, ◌||◌, Option, none, some, List, [], ◌∷◌,
  ◌++◌, length, ltb, leb, ◌==◌, if◌then◌else◌,
}
use kerneleye.Base.Str.{Str, str, str_eq}
use kerneleye.Base.Dict.{Dict, lookup, contains, insert, erase, retain}
use kerneleye.Base.Int.{ℤ, pos, leb_ℤ}
use kerneleye.Signing.{Sys, sign, build_canonical_payload}
use kerneleye.Hub.{HubCommand}
use kerneleye.Stream.{signed_action, signed_type}
use kerneleye.Services.{service_from_port}
pub use Entities.{ActiveBlock, Row, Reason, one_if, NewBlock, is_permanent_kind, StoredBlock}
unfoldable pub use Entities.{detail, build_block_reasons, new_block, active_block, of_stored}
use Matrix.{
  Enforcement, rate_limit, block, permanent, Decision, Escalation, History, determine_enforcement,
}

-- `BlockManager`: the configuration that its handlers read, and the active blocks by address.
pub record Manager : Type 0 where
  pub base_block_duration : ℕ
  pub has_hub : Bool
  pub active_blocks : Dict ActiveBlock

pub data Severity : Type 0 where
  medium high critical : Severity

pub data Effect : Type 0 where
  insert_block : NewBlock → Effect
  create_alert : Str → Str → ℤ → Severity → Effect
  send_command : Str → HubCommand → Effect
  broadcast_block : Str → NewBlock → Effect

-- The answers and readings that one `createBlock` meets: the key, the clock when it sets the expiry, when
-- it inserts the row and when it keeps the entry, the two readings that `signCommand` makes, the history query and the id of the inserted row.
pub record Answers : Type 0 where
  pub key : Str
  pub now : ℕ
  pub inserted_at : ℕ
  pub kept_at : ℕ
  pub nonce : ℤ
  pub acted_at : ℤ
  pub whitelisted : Option Bool
  pub history : Option History
  pub block_id : Option Str

abbrev pub text_or : Option Str → Str
text_or none = []
text_or (some s) = s

-- `signCommand`: a missing key leaves the command unsigned; a missing field is signed as zero.
unfoldable pub sign_command : Sys → Str → ℤ → ℤ → HubCommand → HubCommand
sign_command s key nonce acted_at cmd = if length key == 0 then cmd else record cmd {
  signature = some (
      sign s key nonce (
        build_canonical_payload (signed_action cmd.action) cmd.ip
          (elim cmd.duration [ none ↦ pos 0 | some d ↦ d ]) cmd.reason (text_or cmd.block_id)
          (signed_type (text_or cmd.block_type)) acted_at));
  nonce = some (s.format_int nonce);
  issued_at_unix_nano = some (s.format_int acted_at);
}

-- The command that `sendBlockCommand` signs.
unfoldable pub block_command : Sys → Str → ℕ → Str → Str → Str → HubCommand
block_command s ip duration reason block_type block_id = record {
  action = if str_eq block_type (str "ratelimit") then str "ratelimit" else str "block";
  ip = ip;
  duration = some (s.int_seconds duration);
  reason = reason;
  block_id = some block_id;
  block_type = some block_type;
  signature = none;
  nonce = none;
  issued_at_unix_nano = none;
}

-- The command that `Unblock` signs: it names no block type.
unfoldable pub unblock_command : Str → Str → HubCommand
unblock_command ip reason = record {
  action = str "unblock";
  ip = ip;
  duration = none;
  reason = reason;
  block_id = none;
  block_type = none;
  signature = none;
  nonce = none;
  issued_at_unix_nano = none;
}

unfoldable pub agent_block_type : Enforcement → Str
agent_block_type rate_limit = str "ratelimit"
agent_block_type block = str "blocklist"
agent_block_type permanent = str "blocklist"

unfoldable pub severity_of : ℤ → Severity
severity_of score =
    if leb_ℤ (pos 70) score then critical else if leb_ℤ (pos 50) score then high else medium

-- The command to the agent and the broadcast to the owner's dashboard, where there is a hub.
unfoldable pub hub_effects : Bool → Option Str → Str → HubCommand → NewBlock → List Effect
hub_effects false user agent cmd b = []
hub_effects true none agent cmd b = send_command agent cmd ∷ []
hub_effects true (some user) agent cmd b = send_command agent cmd ∷ broadcast_block user b ∷ []

-- `createBlock` once the insert has given an id. The outcome of the alert is only logged.
unfoldable pub record_block : Sys → Manager → Row → Answers → Decision → Str → Manager × List Effect
unfolding new_block active_block agent_block_type sign_command block_command severity_of hub_effects
record_block s bm row a d id = (
  record bm {
    active_blocks = insert row.source_ip (active_block row d a.now a.kept_at) bm.active_blocks;
  },
  insert_block (new_block s row d a.now a.inserted_at)
      ∷ create_alert row.server_id row.source_ip row.threat_score (severity_of row.threat_score)
      ∷ hub_effects bm.has_hub row.user_id row.server_id
          (sign_command s a.key a.nonce a.acted_at
            (block_command s row.source_ip d.duration row.threat_type (agent_block_type d.kind) id))
          (new_block s row d a.now a.inserted_at),
)

unfoldable pub decide : Sys → Manager → Row → Answers → Decision
unfolding determine_enforcement
decide s bm row a =
    determine_enforcement bm.base_block_duration row.threat_score (s.to_lower row.threat_level)
      a.history

-- `createBlock`: if the insert fails nothing else happens.
unfoldable pub create_block : Sys → Manager → Row → Answers → Manager × List Effect
unfolding record_block decide
create_block s bm row a = elim a.block_id [
  | none ↦ (bm, insert_block (new_block s row (decide s bm row a) a.now a.inserted_at) ∷ [])
  | some id ↦ record_block s bm row a (decide s bm row a) id
]

-- One row of the loop of `evaluateAndBlock`: whether its address is active, then what the whitelist
-- says (a failed check skips it for safety).
unfoldable pub consider : Sys → Manager → Row → Answers → Bool → Option Bool → Manager × List Effect
consider s bm row a true listed = (bm, [])
consider s bm row a false none = (bm, [])
consider s bm row a false (some true) = (bm, [])
consider s bm row a false (some false) = create_block s bm row a

unfoldable pub evaluate_row : Sys → Manager → Row → Answers → Manager × List Effect
unfolding consider
evaluate_row s bm row a =
    consider s bm row a (contains row.source_ip bm.active_blocks) a.whitelisted

-- `evaluateAndBlock` on the rows that the query found.
unfoldable pub evaluate_and_block : Sys → Manager → List (Row × Answers) → Manager × List Effect
evaluate_and_block s bm [] = (bm, [])
evaluate_and_block s bm ((row, a) ∷ rows) =
    let (bm', effects) = evaluate_row s bm row a in
    let (bm'', more) = evaluate_and_block s bm' rows in (bm'', effects ++ more)

-- `cleanupExpiredBlocks`
unfoldable pub outlasts : ℕ → Str → ActiveBlock → Bool
outlasts now ip b = b.is_permanent || not (ltb b.expires_at now)

unfoldable pub cleanup_expired_blocks : ℕ → Manager → Manager
cleanup_expired_blocks now bm = record bm { active_blocks = retain (outlasts now) bm.active_blocks }

-- `Unblock`: without an entry nothing is sent.
unfoldable pub unblock_ip : Sys → Manager → Str → Str → Answers → Manager × List Effect
unfolding sign_command unblock_command
unblock_ip s bm ip reason a = elim (lookup ip bm.active_blocks) [
  | none ↦ (bm, [])
  | some b ↦ (
    record bm { active_blocks = erase ip bm.active_blocks },
    send_command b.server_id (sign_command s a.key a.nonce a.acted_at (unblock_command ip reason))
        ∷ [],
  )
]

-- `loadActiveBlocks`: later rows over earlier ones; a failed query (`none`) loads nothing.
unfoldable pub load_rows : Dict ActiveBlock → List StoredBlock → Dict ActiveBlock
unfolding of_stored
load_rows m [] = m
load_rows m (b ∷ bs) = load_rows (insert b.ip_address (of_stored b) m) bs

unfoldable pub load_active_blocks : Manager → Option (List StoredBlock) → Manager
unfolding load_rows
load_active_blocks bm none = bm
load_active_blocks bm (some rows) = record bm { active_blocks = load_rows bm.active_blocks rows }
