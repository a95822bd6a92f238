-- ===== src/Delivery/Blocks.antt =====
-- Block and rate-limit commands of the block manager.
use kerneleye.Base.{ap, ◌∙◌, ◌*◌, ◌/◌, ◌^◌, ◌<◌, ◌≡◌, ◌≢◌, refl, ℕ, true, some, [], arith}
use kerneleye.Base.Str.{Str, str_eq}
use kerneleye.Base.Int.{ℤ, pos, ◌*ℤ◌}
use kerneleye.Base.Word.{wrap_i64}
use kerneleye.Signing.{Sys, SysLaws, IsExact}
use kerneleye.Commands.{
  BlockCommand, Env, Client, Call, process_command, age_error, persist_nonce, dispatch, duration_of,
}
use kerneleye.Commands
use kerneleye.Hub.{HubCommand}
use kerneleye.Stream.{to_wire, wire_action, wire_type, signed_action, signed_type}
use kerneleye.BlockManager.{text_or, sign_command, block_command, agent_block_type}
use kerneleye.BlockManager.Matrix.{Enforcement, rate_limit, block, permanent}
use kerneleye.Delivery.{Ready, IsUnsigned, streamed, to_wire-sign, streamed_accepted}

-- The callback that an enforcement is meant to reach.
abbrev pub enforced : Enforcement → Str → ℤ → Str → Call
enforced rate_limit = Commands.Call.rate_limit
enforced block = Commands.Call.block
enforced permanent = Commands.Call.block

-- A duration of the engine survives the trip as whole seconds.
pub duration_of-seconds :
    (d : ℕ) → d < 2 ^ 63 → duration_of (pos (d / 10 ^ 9)) ≡ pos (d / 10 ^ 9 * 10 ^ 9)
unfolding duration_of wrap_i64 ◌*ℤ◌
duration_of-seconds d h = ground arith

module _ (s : Sys) (ip : Str) (d : ℕ) (reason id : Str) where
  block_codes :
      (k : Enforcement)
      → let cmd = block_command s ip d reason (agent_block_type k) id in
        (wire_action cmd.action cmd.block_type ≡ signed_action cmd.action)
        × (wire_type cmd.block_type ≡ signed_type (text_or cmd.block_type))
  unfolding block_command agent_block_type wire_action wire_type signed_action signed_type str_eq
  block_codes rate_limit = (refl, refl)
  block_codes block = (refl, refl)
  block_codes permanent = (refl, refl)

  block_command-IsUnsigned :
      (k : Enforcement) → ip ≢ [] → IsUnsigned (block_command s ip d reason (agent_block_type k) id)
  unfolding block_command
  block_command-IsUnsigned k h = record {
    has_ip = h;
    no_signature = refl;
    no_nonce = refl;
    no_time = refl;
  }

  block_dispatch :
      (laws : SysLaws s) (key : Str) (nonce acted_at : ℤ) (c : Client) (k : Enforcement)
      → c.has_on_block ≡ true
      → c.has_on_rate_limit ≡ true
      → IsExact d
      → d < 2 ^ 63
      → dispatch c
          (streamed s key nonce acted_at (block_command s ip d reason (agent_block_type k) id))
        ≡ some (enforced k ip (pos (d / 10 ^ 9 * 10 ^ 9)) reason)
  unfolding dispatch block_command agent_block_type wire_action str_eq
  block_dispatch laws key nonce acted_at c rate_limit hb hr e h =
      rw (laws.int_seconds_exact d e h, duration_of-seconds d h, hr)
  block_dispatch laws key nonce acted_at c block hb hr e h =
      rw (laws.int_seconds_exact d e h, duration_of-seconds d h, hb)
  block_dispatch laws key nonce acted_at c permanent hb hr e h =
      rw (laws.int_seconds_exact d e h, duration_of-seconds d h, hb)

-- A block or rate limit that the block manager signs is streamed, and at an agent that is ready for it
-- reaches the callback for its kind, with its address and reason and its duration in whole seconds;
-- its nonce becomes the agent's last one. The address is not empty, both callbacks are set, and the
-- duration is an int64 of whole seconds or of less than 10^6 seconds, so that its float64 is exact enough.
pub block_delivered :
    (s : Sys) (laws : SysLaws s) (key : Str) (nonce acted_at now : ℤ) (env : Env) (c : Client)
    (ip reason id : Str) (d : ℕ) (k : Enforcement)
    → Ready key nonce acted_at env c
    → ip ≢ []
    → c.has_on_block ≡ true
    → c.has_on_rate_limit ≡ true
    → IsExact d
    → d < 2 ^ 63
    → (w : BlockCommand) × (to_wire s now
          (sign_command s key nonce acted_at (block_command s ip d reason (agent_block_type k) id))
        ≡ some w)
      × (process_command s env c w ≡ (
        some (enforced k ip (pos (d / 10 ^ 9 * 10 ^ 9)) reason),
        persist_nonce s env (record c { tracker = record { last_seen = nonce } }) nonce,
      ))
block_delivered s laws key nonce acted_at now env c ip reason id d k r hip hb hr he hd = (
  streamed s key nonce acted_at cmd,
  to_wire-sign s laws key nonce acted_at now cmd r.has_key r.in_range
      (block_command-IsUnsigned s ip d reason id k hip),
  streamed_accepted s laws key nonce acted_at env c cmd r (block_codes s ip d reason id k).0
        (block_codes s ip d reason id k).1
      ∙ ap (λ o. (o, c')) (block_dispatch s ip d reason id laws key nonce acted_at c k hb hr he hd),
)
  where
    cmd : HubCommand
    cmd = block_command s ip d reason (agent_block_type k) id

    c' : Client
    c' = persist_nonce s env (record c { tracker = record { last_seen = nonce } }) nonce
