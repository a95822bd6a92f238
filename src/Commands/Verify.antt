-- ===== src/Commands/Verify.antt =====
-- When `verifyCommand` accepts, and what it then changes.
use kerneleye.Base.{
  ap, Option, refl, some, ◌≡◌, ◌≢◌, ◌↔◌, ◌*◌, ◌^◌, ◌-◌, if◌then◌else◌, true, none, [], arith,
}
use kerneleye.Base.Str.{str_eq_iff}
use kerneleye.Base.Int.{ℤ, pos, negsuc, ltb_ℤ, ◌-ℤ◌, ◌≤ℤ◌}
use kerneleye.Signing.{Sys, NonceTracker, sign, verify, check, record_nonce}
use kerneleye.Commands.{
  check_command, keep_nonce, BlockCommand, Reject, Env, Client, obey, process_command,
  verify_command, payload_of, age_error, persist_nonce,
}

abbrev pub Ltz : ℤ → ℤ → Type 0
Ltz a b = ltb_ℤ a b ≡ true

-- What an accepted command has shown.
pub record Accepted (s : Sys) (env : Env) (c : Client) (cmd : BlockCommand) (c' : Client)
    : Type 0 where
  pub has_key : env.key ≢ []
  pub fresh : Ltz c.tracker.last_seen cmd.nonce
  pub positive : Ltz (pos 0) cmd.nonce
  pub in_window : age_error env.now cmd.issued_at ≡ none
  pub signed : cmd.signature ≡ sign s env.key cmd.nonce (payload_of cmd)
  pub tracked : c'.tracker.last_seen ≡ cmd.nonce
  pub filed :
      c' ≡ persist_nonce s env (record c { tracker = record { last_seen = cmd.nonce } }) cmd.nonce

-- A command that `verifyCommand` accepts came while a key was configured, carries a positive nonce above
-- every one seen before, a time within five minutes of the clock or none, and the signature that the
-- key gives its fields; then that nonce is the last one seen, and the client is otherwise as it was but
-- for the nonce file, which holds that nonce if it could be written.
pub verify_command-Accepted :
    (s : Sys) (env : Env) (c : Client) (cmd : BlockCommand) {c' : Client}
    → verify_command s env c cmd ≡ (none, c')
    → Accepted s env c cmd c'
unfolding verify_command check_command keep_nonce verify check record_nonce
verify_command-Accepted s env c cmd h =
    ground (arith, str_eq_iff (sign s env.key cmd.nonce (payload_of cmd)) cmd.signature)

-- The time of a command, where it has one, lies within five minutes of the clock.
abbrev pub InWindow : ℤ → Option ℤ → Type 0
InWindow now none = Unit
InWindow now (some t) =
    ((now -ℤ t) ≤ℤ pos (300 * 10 ^ 9)) × (negsuc (300 * 10 ^ 9 - 1) ≤ℤ (now -ℤ t))

age_error-InWindow : (now : ℤ) (o : Option ℤ) → (age_error now o ≡ none) ↔ InWindow now o
unfolding age_error
age_error-InWindow now none = ground arith
age_error-InWindow now (some t) = ground arith

-- What makes a command acceptable at a tracker's last nonce.
pub record Acceptable (s : Sys) (env : Env) (last : ℤ) (cmd : BlockCommand) : Type 0 where
  pub has_key : env.key ≢ []
  pub has_signature : cmd.signature ≢ []
  pub positive : Ltz (pos 0) cmd.nonce
  pub fresh : Ltz last cmd.nonce
  pub timely : InWindow env.now cmd.issued_at
  pub signed : cmd.signature ≡ sign s env.key cmd.nonce (payload_of cmd)

-- The client after an accepted command: that nonce is the last one seen, the file holds it if it could be
-- written, and the callbacks are as they were.
pub record Marked (s : Sys) (env : Env) (c : Client) (nonce : ℤ) (c' : Client) : Type 0 where
  pub tracked : c'.tracker.last_seen ≡ nonce
  pub filed : c'.nonce_file ≡ (if env.disk_ok then some (s.format_int nonce) else c.nonce_file)
  pub block_kept : c'.has_on_block ≡ c.has_on_block
  pub unblock_kept : c'.has_on_unblock ≡ c.has_on_unblock
  pub rate_limit_kept : c'.has_on_rate_limit ≡ c.has_on_rate_limit

module _ (s : Sys) (env : Env) (cmd : BlockCommand) where
  pub check_command-Acceptable :
      (t : NonceTracker) → (check_command s env t cmd ≡ none) ↔ Acceptable s env t.last_seen cmd
  unfolding check_command verify check
  check_command-Acceptable t = (
    λ h. record {
      has_key = ground (arith, h);
      has_signature = ground (arith, h);
      positive = ground (arith, h);
      fresh = ground (arith, h);
      timely = (age_error-InWindow env.now cmd.issued_at).0 (ground (arith, h));
      signed =
          ground (arith, h, str_eq_iff (sign s env.key cmd.nonce (payload_of cmd)) cmd.signature);
    },
    λ a. ground (
      arith,
      a.has_key,
      a.has_signature,
      a.positive,
      a.fresh,
      (age_error-InWindow env.now cmd.issued_at).1 a.timely,
      a.signed,
      str_eq_iff (sign s env.key cmd.nonce (payload_of cmd)) cmd.signature,
    ),
  )

-- The other way: with a key, a fresh nonce, a time within the window and the right signature a
-- command is accepted, and only the tracker and the file change.
pub verify_command_accepts :
    (s : Sys) (env : Env) (c : Client) (cmd : BlockCommand)
    → env.key ≢ []
    → cmd.signature ≢ []
    → Ltz (pos 0) cmd.nonce
    → Ltz c.tracker.last_seen cmd.nonce
    → age_error env.now cmd.issued_at ≡ none
    → cmd.signature ≡ sign s env.key cmd.nonce (payload_of cmd)
    → verify_command s env c cmd ≡ (
      none,
      persist_nonce s env (record c { tracker = record { last_seen = cmd.nonce } }) cmd.nonce,
    )
unfolding verify_command check_command keep_nonce verify check record_nonce
verify_command_accepts s env c cmd key sig positive fresh window signed =
    ground (arith, str_eq_iff (sign s env.key cmd.nonce (payload_of cmd)) cmd.signature)

-- A refused command changes nothing.
pub verify_command-refused :
    (s : Sys) (env : Env) (c : Client) (cmd : BlockCommand) {e : Reject} {c' : Client}
    → verify_command s env c cmd ≡ (some e, c')
    → c' ≡ c
unfolding verify_command check_command keep_nonce
verify_command-refused s env c cmd h = ground arith

-- A command that `verifyCommand` never accepts makes no call and changes nothing: its nonce can still be
-- used.
pub process_command-none :
    (s : Sys) (env : Env) (c : Client) (cmd : BlockCommand)
    → ((c' : Client) → verify_command s env c cmd ≢ (none, c'))
    → process_command s env c cmd ≡ (none, c)
unfolding process_command obey
process_command-none s env c cmd never = outcome (verify_command s env c cmd) refl
  where
    outcome : (r : Option Reject × Client) → verify_command s env c cmd ≡ r → obey cmd r ≡ (none, c)
    outcome (none, c') e = absurd (never c' e)
    outcome (some refusal, c') e = ap (λ x. (none, x)) (verify_command-refused s env c cmd e)
