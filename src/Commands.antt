-- ===== src/Commands.antt =====
-- agent/block_command_client.go, block_command_verify.go, block_command_sync.go: the agent's end of
-- the block command stream. The environment variable, the clock and the outcome of a file write are
-- `Env`; a callback is the `Call` made of it. Waiting, reconnecting and logging are left out.
pub mod Verify
pub mod Sync
pub mod Replay
pub mod Authentic
pub mod Overlap
use kerneleye.Base.{
  ℕ, ◌-◌, ◌*◌, ◌^◌, ◌≡◌, Bool, true, false, not, ◌||◌, Option, none, some, List, [], ◌∷◌, length,
  ◌==◌, if◌then◌else◌,
}
use kerneleye.Base.Str.{Str, str, str_eq}
use kerneleye.Base.Dict.{Dict, insert}
use kerneleye.Base.Int.{ℤ, pos, negsuc, ◌-ℤ◌, ◌*ℤ◌, ltb_ℤ, leb_ℤ, eqb_ℤ}
use kerneleye.Base.Word.{wrap_i64}
use kerneleye.Signing.{
  Sys, Error, NonceTracker, BlockListEntry, check, record_nonce, verify, build_canonical_payload,
  build_block_list_payload,
}

-- `pb.BlockCommand`; enums are their int32 codes, `issued_at` is `AsTime().UnixNano()`.
pub record BlockCommand : Type 0 where
  pub action : ℤ
  pub ip_address : Str
  pub duration_seconds : ℤ
  pub reason : Str
  pub block_id : Str
  pub block_type : ℤ
  pub issued_at : Option ℤ
  pub signature : Str
  pub nonce : ℤ

-- `pb.GetBlockListResponse`
pub record BlockListResponse : Type 0 where
  pub blocks : List BlockListEntry
  pub signature : Str
  pub nonce : ℤ

pub record Env : Type 0 where
  pub key : Str
  pub now : ℤ
  pub disk_ok : Bool

-- The part of `BlockCommandClient` that commands read and write: the tracker, the file at
-- `noncePath`, and which callbacks are set.
pub record Client : Type 0 where
  pub tracker : NonceTracker
  pub nonce_file : Option Str
  pub has_on_block : Bool
  pub has_on_unblock : Bool
  pub has_on_rate_limit : Bool

pub data Reject : Type 0 where
  no_key unsigned replayed expired from_future rpc_failed : Reject
  bad_signature : Error → Reject

-- `remediation.BlockType`
pub data BlockType : Type 0 where
  blocklist ratelimit cidr : BlockType

-- What is handed to a callback: address, duration in nanoseconds (0 is permanent), reason.
pub data Call : Type 0 where
  block : Str → ℤ → Str → Call
  rate_limit : Str → ℤ → Str → Call
  unblock : Str → BlockType → Str → Call

abbrev pub max_command_age : ℕ
max_command_age = 300 * 10 ^ 9

-- `persistNonce`: a failed write keeps the file.
unfoldable pub persist_nonce : Sys → Env → Client → ℤ → Client
persist_nonce s env c nonce =
    if env.disk_ok then record c { nonce_file = some (s.format_int nonce) } else c

-- `loadNonce`, on a client whose tracker is new.
unfoldable pub load_nonce : Sys → Client → Client
load_nonce s c = elim c.nonce_file [
  | none ↦ c
  | some text ↦ elim (s.parse_int (s.trim_space text)) [
    | none ↦ c
    | some last ↦ record c { tracker = record_nonce c.tracker last }
  ]
]

unfoldable pub issued_nano : Option ℤ → ℤ
issued_nano none = pos 0
issued_nano (some t) = t

-- The window of `verifyCommand` around the clock; no timestamp passes.
unfoldable pub age_error : ℤ → Option ℤ → Option Reject
age_error now none = none
age_error now (some t) =
    if ltb_ℤ (pos max_command_age) (now -ℤ t)
    then some expired
    else if ltb_ℤ (now -ℤ t) (negsuc (max_command_age - 1))
    then some from_future
    else none

-- The payload that `verifyCommand` recomputes.
unfoldable pub payload_of : BlockCommand → Str
unfolding issued_nano
payload_of cmd =
    build_canonical_payload cmd.action cmd.ip_address cmd.duration_seconds cmd.reason cmd.block_id
      cmd.block_type (issued_nano cmd.issued_at)

-- `verifyCommand` up to its success: it reads the tracker once, by `Check`, and changes nothing. `none` is
-- the nil error.
unfoldable pub check_command : Sys → Env → NonceTracker → BlockCommand → Option Reject
check_command s env t cmd =
    if length env.key == 0
    then some no_key
    else if leb_ℤ cmd.nonce (pos 0) || length cmd.signature == 0
    then some unsigned
    else if not (check t cmd.nonce)
    then some replayed
    else elim (age_error env.now cmd.issued_at) [
      | some e ↦ some e
      | none ↦ elim (verify s env.key cmd.nonce (payload_of cmd) cmd.signature) [
        | some e ↦ some (bad_signature e)
        | none ↦ none
      ]
    ]

-- `Record` and then `persistNonce` on success.
unfoldable pub keep_nonce : Sys → Env → Client → ℤ → Client
unfolding persist_nonce
keep_nonce s env c nonce =
    persist_nonce s env (record c { tracker = record_nonce c.tracker nonce }) nonce

-- `verifyCommand` where no other call records a nonce between its `Check` and its `persistNonce`; no lock
-- spans them, and Commands/Overlap has their steps one by one.
unfoldable pub verify_command : Sys → Env → Client → BlockCommand → Option Reject × Client
unfolding check_command keep_nonce
verify_command s env c cmd = elim (check_command s env c.tracker cmd) [
  | some e ↦ (some e, c)
  | none ↦ (none, keep_nonce s env c cmd.nonce)
]

-- `time.Duration(secs) * time.Second` where secs > 0.
unfoldable pub duration_of : ℤ → ℤ
duration_of secs = if ltb_ℤ (pos 0) secs then wrap_i64 (secs *ℤ pos (10 ^ 9)) else pos 0

unfoldable pub block_type_of : ℤ → BlockType
block_type_of code =
    if eqb_ℤ code (pos 2) then ratelimit else if eqb_ℤ code (pos 3) then cidr else blocklist

-- The switch of `processCommand` on a verified command.
unfoldable pub dispatch : Client → BlockCommand → Option Call
unfolding duration_of block_type_of
dispatch c cmd =
    let duration = duration_of cmd.duration_seconds in
    if eqb_ℤ cmd.action (pos 0)
    then (if c.has_on_block then some (block cmd.ip_address duration cmd.reason) else none)
    else if eqb_ℤ cmd.action (pos 1)
    then (if c.has_on_unblock
        then some (unblock cmd.ip_address (block_type_of cmd.block_type) cmd.reason)
        else none)
    else if eqb_ℤ cmd.action (pos 2)
    then (if c.has_on_rate_limit
        then some (rate_limit cmd.ip_address duration cmd.reason)
        else if c.has_on_block
        then some (block cmd.ip_address duration cmd.reason)
        else none)
    else none

-- The rest of `processCommand` on the outcome of the verification: a rejected command is audited and
-- dropped.
unfoldable pub obey : BlockCommand → Option Reject × Client → Option Call × Client
obey cmd (some e, c) = (none, c)
obey cmd (none, c) = (dispatch c cmd, c)

unfoldable pub process_command : Sys → Env → Client → BlockCommand → Option Call × Client
process_command s env c cmd = obey cmd (verify_command s env c cmd)
