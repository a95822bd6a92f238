-- ===== src/Stream.antt =====
-- backend/internal/api/block_grpc.go: what the backend streams to an agent. Commands come from the
-- hub's channel or from the whitelist; block lists answer `GetBlockList`.
use kerneleye.Base.{◌&&◌, Option, none, some, List, [], ◌∷◌, length, ◌==◌, if◌then◌else◌}
use kerneleye.Base.Str.{Str, str, str_eq}
use kerneleye.Base.Int.{ℤ, pos, ltb_ℤ, eqb_ℤ}
use kerneleye.Signing.{Sys, BlockListEntry, sign, build_canonical_payload, build_block_list_payload}
use kerneleye.Commands.{BlockCommand, BlockListResponse}
use kerneleye.Hub.{HubCommand}

-- The codes of `BlockCommand.Action` and `BlockListEntry.BlockType`.
abbrev pub action_block : ℤ
action_block = pos 0

abbrev pub action_unblock : ℤ
action_unblock = pos 1

abbrev pub action_rate_limit : ℤ
action_rate_limit = pos 2

abbrev pub type_unspecified : ℤ
type_unspecified = pos 0

abbrev pub type_blocklist : ℤ
type_blocklist = pos 1

abbrev pub type_rate_limit : ℤ
type_rate_limit = pos 2

abbrev pub type_cidr : ℤ
type_cidr = pos 3

-- The switches that `signCommand` and `signHubCommand` share: the codes that are signed.
unfoldable pub signed_action : Str → ℤ
signed_action action =
    if str_eq action (str "block")
    then action_block
    else if str_eq action (str "unblock")
    then action_unblock
    else if str_eq action (str "ratelimit")
    then action_rate_limit
    else action_block

unfoldable pub signed_type : Str → ℤ
signed_type t =
    if str_eq t (str "blocklist")
    then type_blocklist
    else if str_eq t (str "ratelimit")
    then type_rate_limit
    else if str_eq t (str "cidr")
    then type_cidr
    else type_unspecified

-- In `StreamBlockCommands`: the action and the block type that go on the wire. A block type of
-- "ratelimit" turns a block into a rate limit; a missing or unknown one is the block list.
unfoldable pub wire_type : Option Str → ℤ
wire_type none = type_blocklist
wire_type (some t) =
    if str_eq t (str "ratelimit")
    then type_rate_limit
    else if str_eq t (str "cidr")
    then type_cidr
    else type_blocklist

unfoldable pub wire_action : Str → Option Str → ℤ
wire_action action t =
    let named =
      if str_eq action (str "unblock")
      then action_unblock
      else if str_eq action (str "ratelimit")
      then action_rate_limit
      else action_block in
    elim t [
      | none ↦ named
      | some t ↦
          if str_eq t (str "ratelimit") && eqb_ℤ named action_block
          then action_rate_limit
          else named
    ]

abbrev or_else {ℓ} : {A : Type ℓ} → Option A → A → A
or_else none d = d
or_else (some a) d = a

abbrev parsed : Sys → Option Str → Option ℤ
parsed s none = none
parsed s (some text) = s.parse_int text

-- One command of the channel on its way to `stream.Send`, `none` if it is skipped for want of an
-- address. `now` is the timestamp of a command that carries none.
unfoldable pub to_wire : Sys → ℤ → HubCommand → Option BlockCommand
unfolding wire_action wire_type
to_wire s now cmd =
    if length cmd.ip == 0
    then none
    else some (record {
      action = wire_action cmd.action cmd.block_type;
      ip_address = cmd.ip;
      duration_seconds = or_else cmd.duration (pos 0);
      reason = cmd.reason;
      block_id = or_else cmd.block_id [];
      block_type = wire_type cmd.block_type;
      issued_at = some (or_else (parsed s cmd.issued_at_unix_nano) now);
      signature = or_else cmd.signature [];
      nonce = or_else (parsed s cmd.nonce) (pos 0);
    })

-- `signHubCommand` up to the send. The nonce and the time are two readings of one clock.
unfoldable pub sign_hub_command : Sys → Str → ℤ → ℤ → Str → Str → Str → Str → ℤ → HubCommand
unfolding signed_action signed_type
sign_hub_command s key nonce issued_at action ip reason block_type duration =
    let cmd : HubCommand = record {
      action = action;
      ip = ip;
      duration = if ltb_ℤ (pos 0) duration then some duration else none;
      reason = reason;
      block_id = none;
      block_type = some block_type;
      signature = none;
      nonce = none;
      issued_at_unix_nano = none;
    } in
    if length key == 0 then cmd else record cmd {
      signature = some (
          sign s key nonce (
            build_canonical_payload (signed_action action) ip duration reason []
              (signed_type block_type) issued_at));
      nonce = some (s.format_int nonce);
      issued_at_unix_nano = some (s.format_int issued_at);
    }

-- One UNBLOCK of the whitelist snapshot that opens a stream; there are two for each address.
unfoldable pub whitelist_command : Sys → Str → ℤ → ℤ → Str → ℤ → BlockCommand
whitelist_command s key nonce issued_at ip block_type = record {
  action = action_unblock;
  ip_address = ip;
  duration_seconds = pos 0;
  reason = str "whitelisted";
  block_id = [];
  block_type = block_type;
  issued_at = some issued_at;
  signature =
      if length key == 0
      then []
      else sign s key nonce (
          build_canonical_payload action_unblock ip (pos 0) (str "whitelisted") [] block_type
            issued_at);
  nonce = nonce;
}

-- A row of `GetActiveBlocksForServer`; `expires_at` is NULL for a permanent block.
pub record BlockRow : Type 0 where
  pub ip_address : Str
  pub duration_seconds : ℤ
  pub reasons : Str
  pub expires_at : Option ℤ
  pub enforcement_type : Str

-- The conversion of a row in `GetBlockList`. `reasons` is the joined text.
unfoldable pub list_entry : BlockRow → BlockListEntry
list_entry row = record {
  ip_address = row.ip_address;
  duration_seconds = row.duration_seconds;
  reason = row.reasons;
  block_type =
      if str_eq row.enforcement_type (str "ratelimit") then type_rate_limit else type_blocklist;
  expires_at = or_else row.expires_at (pos 0);
}

unfoldable pub list_entries : List BlockRow → List BlockListEntry
unfolding list_entry
list_entries [] = []
list_entries (r ∷ rs) = list_entry r ∷ list_entries rs

-- `GetBlockList` for an authenticated, active server; `none` is a failed query, which is answered by
-- an empty and unsigned list.
unfoldable pub get_block_list : Sys → Str → ℤ → Option (List BlockRow) → BlockListResponse
unfolding list_entries
get_block_list s key nonce none = record { blocks = []; signature = []; nonce = pos 0 }
get_block_list s key nonce (some rows) =
    let blocks = list_entries rows in
    if length key == 0 then record { blocks = blocks; signature = []; nonce = pos 0 } else record {
      blocks = blocks;
      signature = sign s key nonce (build_block_list_payload blocks);
      nonce = nonce;
    }
