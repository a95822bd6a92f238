-- ===== src/Commands/Authentic.antt =====
-- An accepted command is one that the holder of the key has signed.
use kerneleye.Base.{◌<◌, ◌^◌, ◌≡◌, sym, ◌∙◌, none, arith, length}
use kerneleye.Base.Str.{Str}
use kerneleye.Base.Word.{InI32, InI64, u64-lt, u64-injective, be64-append}
use kerneleye.Signing.{Sys, CollisionFree, sign, signed_message}
use kerneleye.Signing.Payload.{build_canonical_payload-injective}
use kerneleye.Commands.{
  BlockCommand, Env, Client, verify_command, payload_of, issued_nano, dispatch,
}
use kerneleye.Commands.Verify.{verify_command-Accepted}

-- The fields fit their types on the wire, and no text is longer than its length prefix can tell.
pub record IsWire (cmd : BlockCommand) : Type 0 where
  pub action_i32 : InI32 cmd.action
  pub ip_short : length cmd.ip_address < 2 ^ 32
  pub duration_i64 : InI64 cmd.duration_seconds
  pub reason_short : length cmd.reason < 2 ^ 32
  pub id_short : length cmd.block_id < 2 ^ 32
  pub type_i32 : InI32 cmd.block_type
  pub issued_i64 : InI64 (issued_nano cmd.issued_at)
  pub nonce_i64 : InI64 cmd.nonce

-- Two commands mean the same to an agent.
pub record Agrees (a b : BlockCommand) : Type 0 where
  pub same_action : a.action ≡ b.action
  pub same_ip : a.ip_address ≡ b.ip_address
  pub same_duration : a.duration_seconds ≡ b.duration_seconds
  pub same_reason : a.reason ≡ b.reason
  pub same_id : a.block_id ≡ b.block_id
  pub same_type : a.block_type ≡ b.block_type
  pub same_time : issued_nano a.issued_at ≡ issued_nano b.issued_at
  pub same_nonce : a.nonce ≡ b.nonce

pub signed-Agrees :
    (s : Sys) (key : Str) (a b : BlockCommand)
    → CollisionFree s key
    → IsWire a
    → IsWire b
    → sign s key a.nonce (payload_of a) ≡ sign s key b.nonce (payload_of b)
    → Agrees a b
unfolding sign signed_message payload_of
signed-Agrees s key a b free wa wb e =
    let (same_nonce, same_payload) =
      be64-append _ _ _ _ (u64-lt a.nonce) (u64-lt b.nonce) (free _ _ e) in
    let (action, ip, duration, reason, id, type, time) =
      build_canonical_payload-injective a.action b.action a.ip_address b.ip_address
        a.duration_seconds b.duration_seconds a.reason b.reason a.block_id b.block_id a.block_type
        b.block_type (issued_nano a.issued_at) (issued_nano b.issued_at)
        (wa.action_i32, wb.action_i32) wa.ip_short wb.ip_short (wa.duration_i64, wb.duration_i64)
        wa.reason_short wb.reason_short wa.id_short wb.id_short (wa.type_i32, wb.type_i32)
        (wa.issued_i64, wb.issued_i64) same_payload in
    record {
      same_action = action;
      same_ip = ip;
      same_duration = duration;
      same_reason = reason;
      same_id = id;
      same_type = type;
      same_time = time;
      same_nonce = u64-injective a.nonce b.nonce wa.nonce_i64 wb.nonce_i64 same_nonce;
    }

-- If the agent accepts a command that carries the signature made for another one, the two agree in
-- every signed field, and the agent does what the signed one says. Both fit their types on the wire,
-- and the hash has no collision under the key.
pub verify_command_authentic :
    (s : Sys) (env : Env) (c : Client) (got sent : BlockCommand) {c' : Client}
    → CollisionFree s env.key
    → IsWire got
    → IsWire sent
    → got.signature ≡ sign s env.key sent.nonce (payload_of sent)
    → verify_command s env c got ≡ (none, c')
    → Agrees got sent × (dispatch c' got ≡ dispatch c' sent)
unfolding dispatch
verify_command_authentic s env c got sent {c'} free wg ws sig h = (same, ground (arith, same))
  where
    same : Agrees got sent
    same =
        signed-Agrees s env.key got sent free wg ws
          (sym ((verify_command-Accepted s env c got h).signed) ∙ sig)
