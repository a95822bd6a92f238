-- ===== src/Delivery.antt =====
-- From the backend to the agent's callback: a command that the hub carries, seen from both ends.
pub mod Blocks
pub mod Unblocks
use kerneleye.Base.{
  ap, inl, inr, Bool-cases, ◌≡◌, ◌≢◌, refl, sym, ◌∙◌, Option, none, some, List, [], ◌∷◌, arith,
  length,
}
use kerneleye.Base.Str.{Str, str, str_eq, str_eq_iff}
use kerneleye.Base.Int.{ℤ, pos, ltb_ℤ}
use kerneleye.Base.Word.{InI64}
use kerneleye.Signing.{Sys, SysLaws, sign, build_canonical_payload}
use kerneleye.Commands.{
  BlockCommand, Env, Client, Call, verify_command, process_command, payload_of, issued_nano,
  age_error, persist_nonce, dispatch, obey,
}
use kerneleye.Commands.Verify.{Ltz, verify_command_accepts}
use kerneleye.Hub.{HubCommand}
use kerneleye.Stream.{to_wire, wire_action, wire_type, signed_action, signed_type}
use kerneleye.BlockManager.{sign_command, text_or}

-- A command that has not been signed, with an address.
pub record IsUnsigned (cmd : HubCommand) : Type 0 where
  pub has_ip : cmd.ip ≢ []
  pub no_signature : cmd.signature ≡ none
  pub no_nonce : cmd.nonce ≡ none
  pub no_time : cmd.issued_at_unix_nano ≡ none

-- The agent holds the key under which a command is signed, and would accept its nonce and its time.
pub record Ready (key : Str) (nonce acted_at : ℤ) (env : Env) (c : Client) : Type 0 where
  pub shared : env.key ≡ key
  pub has_key : key ≢ []
  pub in_range : InI64 nonce × InI64 acted_at
  pub positive : Ltz (pos 0) nonce
  pub fresh : Ltz c.tracker.last_seen nonce
  pub in_window : age_error env.now (some acted_at) ≡ none

abbrev duration_or_zero : Option ℤ → ℤ
duration_or_zero none = pos 0
duration_or_zero (some d) = d

-- The command that the agent receives for a signed one.
abbrev pub streamed : Sys → Str → ℤ → ℤ → HubCommand → BlockCommand
streamed s key nonce acted_at cmd = record {
  action = wire_action cmd.action cmd.block_type;
  ip_address = cmd.ip;
  duration_seconds = duration_or_zero cmd.duration;
  reason = cmd.reason;
  block_id = text_or cmd.block_id;
  block_type = wire_type cmd.block_type;
  issued_at = some acted_at;
  signature = sign s key nonce (
      build_canonical_payload (signed_action cmd.action) cmd.ip (duration_or_zero cmd.duration)
        cmd.reason (text_or cmd.block_id) (signed_type (text_or cmd.block_type)) acted_at);
  nonce = nonce;
}

module _ (s : Sys) (laws : SysLaws s) (key : Str) (nonce acted_at : ℤ) where
  pub to_wire-sign :
      (now : ℤ) (cmd : HubCommand)
      → key ≢ []
      → InI64 nonce × InI64 acted_at
      → IsUnsigned cmd
      → to_wire s now (sign_command s key nonce acted_at cmd)
        ≡ some (streamed s key nonce acted_at cmd)
  unfolding to_wire sign_command
  to_wire-sign now cmd k h u =
      ground (arith, laws.parse-format nonce h.0, laws.parse-format acted_at h.1)

  sign_nonempty : (payload : Str) → sign s key nonce payload ≢ []
  unfolding sign
  sign_nonempty payload = laws.hmac_nonempty key _

  dispatch-persist :
      (env : Env) (c : Client) (n : ℤ) (cmd : BlockCommand)
      → dispatch (persist_nonce s env (record c { tracker = record { last_seen = n } }) n) cmd
        ≡ dispatch c cmd
  unfolding dispatch persist_nonce
  dispatch-persist env c n cmd = elim (Bool-cases env.disk_ok) [
    | inl done ↦ rw done
    | inr failed ↦ rw failed
  ]

  signature_of_payload :
      (env : Env) (cmd : HubCommand)
      → env.key ≡ key
      → wire_action cmd.action cmd.block_type ≡ signed_action cmd.action
      → wire_type cmd.block_type ≡ signed_type (text_or cmd.block_type)
      → let w = streamed s key nonce acted_at cmd in
        w.signature ≡ sign s env.key nonce (payload_of w)
  unfolding payload_of
  signature_of_payload env cmd same ea et = rw (same, ea, et)

  -- Where the codes that were signed are those on the wire, a fresh command is accepted.
  pub streamed_accepted :
      (env : Env) (c : Client) (cmd : HubCommand)
      → Ready key nonce acted_at env c
      → wire_action cmd.action cmd.block_type ≡ signed_action cmd.action
      → wire_type cmd.block_type ≡ signed_type (text_or cmd.block_type)
      → process_command s env c (streamed s key nonce acted_at cmd) ≡ (
        dispatch c (streamed s key nonce acted_at cmd),
        persist_nonce s env (record c { tracker = record { last_seen = nonce } }) nonce,
      )
  unfolding process_command obey
  streamed_accepted env c cmd r ea et =
      ap (obey w) accepted ∙ ap (λ o. (o, c')) (dispatch-persist env c nonce w)
    where
      w : BlockCommand
      w = streamed s key nonce acted_at cmd

      c' : Client
      c' = persist_nonce s env (record c { tracker = record { last_seen = nonce } }) nonce

      recomputed : w.signature ≡ sign s env.key nonce (payload_of w)
      recomputed = signature_of_payload env cmd r.shared ea et

      accepted :
          verify_command s env c w
          ≡ (none, persist_nonce s env (record c { tracker = record { last_seen = nonce } }) nonce)
      accepted =
          verify_command_accepts s env c w (λ e. r.has_key (sym r.shared ∙ e)) (sign_nonempty _)
            r.positive r.fresh r.in_window recomputed
