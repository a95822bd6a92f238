-- ===== src/Delivery/Unblocks.antt =====
-- Unblock commands: those of the whitelist handlers and those of `BlockManager.Unblock`.
use kerneleye.Base.{ap, ◌∙◌, sym, ◌^◌, ◌<◌, ◌≡◌, ◌≢◌, refl, true, none, some, [], arith, length}
use kerneleye.Base.Str.{Str, str, str_eq}
use kerneleye.Base.Int.{ℤ, pos}
use kerneleye.Base.Word.{InI64}
use kerneleye.Signing.{Sys, SysLaws, CollisionFree, sign}
use kerneleye.Commands.{
  BlockCommand, Env, Client, Reject, Call, verify_command, process_command, obey, persist_nonce,
  dispatch, issued_nano, blocklist, ratelimit, payload_of,
}
use kerneleye.Commands
use kerneleye.Commands.Verify.{verify_command-Accepted, process_command-none}
use kerneleye.Commands.Authentic.{IsWire, signed-Agrees}
use kerneleye.Hub.{HubCommand}
use kerneleye.Stream.{to_wire, wire_action, wire_type, signed_action, signed_type, sign_hub_command}
use kerneleye.BlockManager.{sign_command, unblock_command, text_or}
use kerneleye.Delivery.{Ready, IsUnsigned, streamed, to_wire-sign, streamed_accepted}

module _ (ip reason : Str) where
  -- What `signHubCommand` signs for an unblock of a block type.
  abbrev hub_unblock : Str → HubCommand
  hub_unblock block_type = record {
    action = str "unblock";
    ip = ip;
    duration = none;
    reason = reason;
    block_id = none;
    block_type = some block_type;
    signature = none;
    nonce = none;
    issued_at_unix_nano = none;
  }

  -- It signs as the block manager does.
  hub_unblock-sign :
      (s : Sys) (key : Str) (nonce acted_at : ℤ) (block_type : Str)
      → sign_hub_command s key nonce acted_at (str "unblock") ip reason block_type (pos 0)
        ≡ sign_command s key nonce acted_at (hub_unblock block_type)
  unfolding sign_hub_command sign_command
  hub_unblock-sign s key nonce acted_at block_type = refl

-- The two lists that a whitelisted address is taken off.
pub data Listed : Type 0 where
  on_blocklist on_ratelimit : Listed

abbrev pub list_name : Listed → Str
list_name on_blocklist = str "blocklist"
list_name on_ratelimit = str "ratelimit"

abbrev pub list_type : Listed → Commands.BlockType
list_type on_blocklist = blocklist
list_type on_ratelimit = ratelimit

module _ (ip reason : Str) where
  listed_codes :
      (l : Listed)
      → let cmd = hub_unblock ip reason (list_name l) in
        (wire_action cmd.action cmd.block_type ≡ signed_action cmd.action)
        × (wire_type cmd.block_type ≡ signed_type (text_or cmd.block_type))
  unfolding wire_action wire_type signed_action signed_type str_eq
  listed_codes on_blocklist = (refl, refl)
  listed_codes on_ratelimit = (refl, refl)

  listed_dispatch :
      (s : Sys) (key : Str) (nonce acted_at : ℤ) (c : Client) (l : Listed)
      → c.has_on_unblock ≡ true
      → dispatch c (streamed s key nonce acted_at (hub_unblock ip reason (list_name l)))
        ≡ some (Commands.Call.unblock ip (list_type l) reason)
  unfolding dispatch wire_action wire_type str_eq
  listed_dispatch s key nonce acted_at c on_blocklist hu = rw hu
  listed_dispatch s key nonce acted_at c on_ratelimit hu = rw hu

-- An unblock that the whitelist handlers sign for either list is streamed, and at an agent that is
-- ready for it reaches the unblock callback with its address, its list and its reason; its nonce
-- becomes the agent's last one. The address is not empty and the callback is set.
pub hub_unblock_delivered :
    (s : Sys) (laws : SysLaws s) (key : Str) (nonce acted_at now : ℤ) (env : Env) (c : Client)
    (ip reason : Str) (l : Listed)
    → Ready key nonce acted_at env c
    → ip ≢ []
    → c.has_on_unblock ≡ true
    → (w : BlockCommand) × (to_wire s now
          (sign_hub_command s key nonce acted_at (str "unblock") ip reason (list_name l) (pos 0))
        ≡ some w)
      × (process_command s env c w ≡ (
        some (Commands.Call.unblock ip (list_type l) reason),
        persist_nonce s env (record c { tracker = record { last_seen = nonce } }) nonce,
      ))
hub_unblock_delivered s laws key nonce acted_at now env c ip reason l r hip hu = (
  streamed s key nonce acted_at cmd,
  ap (to_wire s now) (hub_unblock-sign ip reason s key nonce acted_at (list_name l))
      ∙ to_wire-sign s laws key nonce acted_at now cmd r.has_key r.in_range unsigned,
  streamed_accepted s laws key nonce acted_at env c cmd r (listed_codes ip reason l).0
        (listed_codes ip reason l).1
      ∙ ap (λ o. (o, c')) (listed_dispatch ip reason s key nonce acted_at c l hu),
)
  where
    cmd : HubCommand
    cmd = hub_unblock ip reason (list_name l)

    c' : Client
    c' = persist_nonce s env (record c { tracker = record { last_seen = nonce } }) nonce

    unsigned : IsUnsigned cmd
    unsigned = record { has_ip = hip; no_signature = refl; no_nonce = refl; no_time = refl }

module _ (s : Sys) (key : Str) (nonce acted_at : ℤ) (ip reason : Str) where
  -- What the stream makes of the block manager's unblock, and the command that it has signed.
  abbrev sent_unblock : BlockCommand
  sent_unblock = streamed s key nonce acted_at (unblock_command ip reason)

  abbrev signed_unblock : BlockCommand
  signed_unblock = record sent_unblock { block_type = pos 0 }

  unblock-types : (sent_unblock.block_type ≡ pos 1) × (sent_unblock.action ≡ pos 1)
  unfolding unblock_command wire_type wire_action str_eq
  unblock-types = (refl, refl)

  unblock-signature : sent_unblock.signature ≡ sign s key nonce (payload_of signed_unblock)
  unfolding unblock_command payload_of wire_action signed_action signed_type str_eq
  unblock-signature = refl

  unblock-IsWire :
      length ip < 2 ^ 32
      → length reason < 2 ^ 32
      → InI64 nonce × InI64 acted_at
      → IsWire sent_unblock × IsWire signed_unblock
  unfolding unblock_command wire_type wire_action str_eq issued_nano
  unblock-IsWire hi hr h = ground arith

  unblock-IsUnsigned : ip ≢ [] → IsUnsigned (unblock_command ip reason)
  unfolding unblock_command
  unblock-IsUnsigned h = record { has_ip = h; no_signature = refl; no_nonce = refl; no_time = refl }

-- `BlockManager.Unblock` names no block type: it signs the code of an unspecified one, while the
-- stream sends that of the block list. So an agent that holds the same key never accepts its command: it
-- calls nothing and keeps its state, at any time and whatever its last nonce. The address is not
-- empty, the texts are shorter than 2 ^ 32 bytes, both readings of the clock are int64, and the hash
-- has no collision under the key.
pub manager_unblock_rejected :
    (s : Sys) (laws : SysLaws s) (nonce acted_at now : ℤ) (env : Env) (c : Client) (ip reason : Str)
    → env.key ≢ []
    → CollisionFree s env.key
    → ip ≢ []
    → length ip < 2 ^ 32
    → length reason < 2 ^ 32
    → InI64 nonce × InI64 acted_at
    → (w : BlockCommand) × (to_wire s now
          (sign_command s env.key nonce acted_at (unblock_command ip reason))
        ≡ some w)
      × (process_command s env c w ≡ (none, c))
manager_unblock_rejected s laws nonce acted_at now env c ip reason hk free hip si sr range = (
  w,
  to_wire-sign s laws env.key nonce acted_at now _ hk range
      (unblock-IsUnsigned s env.key nonce acted_at ip reason hip),
  process_command-none s env c w never,
)
  where
    w : BlockCommand
    w = sent_unblock s env.key nonce acted_at ip reason

    wires : IsWire w × IsWire (signed_unblock s env.key nonce acted_at ip reason)
    wires = unblock-IsWire s env.key nonce acted_at ip reason si sr range

    never : (c' : Client) → verify_command s env c w ≢ (none, c')
    never c' e =
        let accepted = verify_command-Accepted s env c w e in
        let agrees =
          signed-Agrees s env.key w (signed_unblock s env.key nonce acted_at ip reason) free wires.0
            wires.1 (sym accepted.signed ∙ unblock-signature s env.key nonce acted_at ip reason) in
        cc (agrees.same_type, (unblock-types s env.key nonce acted_at ip reason).0)
