-- ===== src/Tests/Channel.antt =====
-- Runs of the theorems on commands: signing, verification, delivery.
use kerneleye.Base.{◌≡◌, ◌≢◌, refl, inl, true, none, some, [], ◌∷◌, ◌++◌, arith}
use kerneleye.Base.Str.{str, str_eq}
use kerneleye.Base.Dict.{lookup}
use kerneleye.Base.Int.{pos, ◌-ℤ◌}
use kerneleye.Base.Word.{be32, be64, u32, u64}
use kerneleye.Signing.{
  BlockListEntry, sign, check, verify, record_nonce, build_canonical_payload,
  build_block_list_payload, entry_bytes,
}
use kerneleye.Signing.Payload.{build_canonical_payload-injective}
use kerneleye.Signing.BlockList.{build_block_list_payload-ambiguous}
use kerneleye.Commands.{
  check_command, keep_nonce, BlockCommand, BlockListResponse, Env, Client, verify_command,
  process_command, payload_of, issued_nano, age_error, persist_nonce, dispatch,
}
use kerneleye.Commands
use kerneleye.Commands.Verify.{verify_command_accepts, process_command-none}
use kerneleye.Commands.Overlap.{
  Agent, checked, recorded, Run, stays, moves, records, Run-refuses, Run-twice,
}
use kerneleye.Commands.Sync.{check_list}
use kerneleye.Commands.Replay.{command, restart, accepted_nonces, Rising, accepted_nonces-Rising}
use kerneleye.Commands.Authentic.{IsWire, Agrees, verify_command_authentic}
use kerneleye.Hub.{HubCommand, IsBounded, send_command_to_agent, send_command_to_agent-IsBounded}
use kerneleye.Stream.{to_wire, sign_hub_command}
use kerneleye.BlockManager.{sign_command, block_command, unblock_command, agent_block_type}
use kerneleye.BlockManager.Matrix.{rate_limit}
use kerneleye.Delivery.{Ready}
use kerneleye.Delivery.Blocks.{enforced, block_delivered}
use kerneleye.Delivery.Unblocks.{
  on_ratelimit, list_name, list_type, hub_unblock_delivered, manager_unblock_rejected,
}
use kerneleye.Tests.{sys, sys_laws, sys-CollisionFree, key, address}

abbrev env : Env
env = record { key = key; now = pos 1000; disk_ok = true }

abbrev client : Client
client = record {
  tracker = record { last_seen = pos 0 };
  nonce_file = none;
  has_on_block = true;
  has_on_unblock = true;
  has_on_rate_limit = true;
}

abbrev unsigned : BlockCommand
unsigned = record {
  action = pos 0;
  ip_address = address;
  duration_seconds = pos 60;
  reason = str "syn_flood";
  block_id = str "b1";
  block_type = pos 1;
  issued_at = some (pos 900);
  signature = [];
  nonce = pos 5;
}

abbrev signed : BlockCommand
signed = record unsigned { signature = sign sys key (pos 5) (payload_of unsigned) }

abbrev after_signed : Client
after_signed = record client {
  tracker = record { last_seen = pos 5 };
  nonce_file = some (sys.format_int (pos 5));
}

accepted_now : verify_command sys env client signed ≡ (none, after_signed)
unfolding verify_command check_command keep_nonce sign be64 be32 payload_of build_canonical_payload
    check age_error ◌-ℤ◌ verify str_eq u64 u32 record_nonce
accepted_now = refl

checks_pass : check_command sys env client.tracker signed ≡ none
unfolding check_command sign be64 be32 payload_of build_canonical_payload check age_error ◌-ℤ◌
    verify str_eq u64 u32
checks_pass = refl

-- The same command twice at once, of which one is recorded and then the other.
abbrev doubled : Agent
doubled = record { client = client; tasks = checked (pos 5) ∷ checked (pos 5) ∷ [] }

abbrev once_recorded : Agent
once_recorded = record {
  client = record client { tracker = record_nonce client.tracker (pos 5) };
  tasks = recorded (pos 5) ∷ checked (pos 5) ∷ [];
}

abbrev twice_recorded : Agent
twice_recorded = record {
  client = record once_recorded.client {
    tracker = record_nonce once_recorded.client.tracker (pos 5);
  };
  tasks = recorded (pos 5) ∷ recorded (pos 5) ∷ [];
}

abbrev no_blocks : BlockListResponse
no_blocks = record { blocks = []; signature = str "x"; nonce = pos 4 }

Run-refuses_example :
    (check_command sys env twice_recorded.client.tracker signed ≢ none)
    × (check_list sys env twice_recorded.client.tracker no_blocks ≢ none)
Run-refuses_example =
    Run-refuses sys doubled twice_recorded (pos 5) [] (checked (pos 5) ∷ []) env signed no_blocks
      (moves stays (records (recorded (pos 5) ∷ []) (pos 5) [] refl)) (ground arith) (ground arith)

Run-twice_example :
    Run sys
      (record { client = client; tasks = [] })
      (record { client = client; tasks = checked (pos 5) ∷ checked (pos 5) ∷ [] })
Run-twice_example = Run-twice sys (record { client = client; tasks = [] }) env signed checks_pass

has_signature : signed.signature ≢ []
unfolding sign
has_signature = ground arith

in_time : age_error (pos 1000) (some (pos 900)) ≡ none
unfolding age_error ◌-ℤ◌
in_time = refl

verify_command_accepts_example : verify_command sys env client signed ≡ (
  none,
  persist_nonce sys env
      (record client { tracker = record { last_seen = signed.nonce } })
      signed.nonce,
)
unfolding sign payload_of
verify_command_accepts_example =
    verify_command_accepts sys env client signed (ground arith) has_signature refl refl in_time refl

accepted_nonces-Rising_example :
    Rising
      (pos 0)
      (accepted_nonces sys client (command env signed ∷ restart ∷ command env signed ∷ []))
accepted_nonces-Rising_example =
    accepted_nonces-Rising sys sys_laws client
      (command env signed ∷ restart ∷ command env signed ∷ []) (inl (refl, refl))
      ((refl, ground arith), (tt, ((refl, ground arith), tt)))

signed-IsWire : IsWire signed × IsWire unsigned
unfolding issued_nano
signed-IsWire = ground arith

verify_command_authentic_example :
    Agrees signed unsigned × (dispatch after_signed signed ≡ dispatch after_signed unsigned)
verify_command_authentic_example =
    verify_command_authentic sys env client signed unsigned (sys-CollisionFree key) signed-IsWire.0
      signed-IsWire.1 refl accepted_now

abbrev wrongly_signed : BlockCommand
wrongly_signed = record signed { signature = str "no" }

refused : (c' : Client) → verify_command sys env client wrongly_signed ≢ (none, c')
unfolding verify_command check_command keep_nonce sign be64 be32 payload_of build_canonical_payload
    check age_error ◌-ℤ◌ verify str_eq u64 u32 record_nonce
refused c' = ground arith

process_command-none_example : process_command sys env client wrongly_signed ≡ (none, client)
process_command-none_example = process_command-none sys env client wrongly_signed refused

ready : Ready key (pos 5) (pos 900) env client
unfolding age_error ◌-ℤ◌
ready = ground arith

abbrev the_block : HubCommand
the_block =
    block_command sys address 90000000000 (str "syn_flood") (agent_block_type rate_limit) (str "b1")

block_delivered_example :
    (w : BlockCommand) × (to_wire sys (pos 1000) (sign_command sys key (pos 5) (pos 900) the_block)
      ≡ some w)
    × (process_command sys env client w
        ≡ (some (enforced rate_limit address (pos 90000000000) (str "syn_flood")), after_signed))
unfolding persist_nonce
block_delivered_example =
    block_delivered sys sys_laws key (pos 5) (pos 900) (pos 1000) env client address
      (str "syn_flood") (str "b1") 90000000000 rate_limit ready (ground arith) refl refl (inl refl)
      (ground arith)

hub_unblock_delivered_example :
    (w : BlockCommand) × (to_wire sys (pos 1000) (
        sign_hub_command sys key
          (pos 5)
          (pos 900)
          (str "unblock")
          address
          (str "whitelisted")
          (list_name on_ratelimit)
          (pos 0))
      ≡ some w)
    × (process_command sys env client w ≡ (
      some (Commands.Call.unblock address (list_type on_ratelimit) (str "whitelisted")),
      after_signed,
    ))
unfolding persist_nonce
hub_unblock_delivered_example =
    hub_unblock_delivered sys sys_laws key (pos 5) (pos 900) (pos 1000) env client address
      (str "whitelisted") on_ratelimit ready (ground arith) refl

manager_unblock_rejected_example :
    (w : BlockCommand) × (to_wire sys
        (pos 1000)
        (sign_command sys key (pos 5) (pos 900) (unblock_command address (str "manual")))
      ≡ some w)
    × (process_command sys env client w ≡ (none, client))
manager_unblock_rejected_example =
    manager_unblock_rejected sys sys_laws (pos 5) (pos 900) (pos 1000) env client address
      (str "manual") (ground arith) (sys-CollisionFree key) (ground arith) (ground arith)
      (ground arith) (ground arith)

abbrev first_entry : BlockListEntry
first_entry = record {
  ip_address = address;
  duration_seconds = pos 60;
  reason = str "scan";
  block_type = pos 1;
  expires_at = pos 2000;
}

build_block_list_payload-ambiguous_example :
    build_block_list_payload
      (record first_entry { reason = str "scan" ++ (b'\n' ∷ entry_bytes first_entry) } ∷ [])
    ≡ build_block_list_payload (first_entry ∷ first_entry ∷ [])
build_block_list_payload-ambiguous_example =
    build_block_list_payload-ambiguous first_entry first_entry []

one_channel : IsBounded ((key, []) ∷ [])
unfolding lookup
one_channel client queue found = ground arith

send_command_to_agent-IsBounded_example :
    IsBounded (send_command_to_agent key the_block ((key, []) ∷ []))
send_command_to_agent-IsBounded_example =
    send_command_to_agent-IsBounded key the_block ((key, []) ∷ []) one_channel

build_canonical_payload-injective_example :
    (pos 0 ≡ pos 0)
    × (address ≡ address)
    × (pos 60 ≡ pos 60)
    × (key ≡ key)
    × (address ≡ address)
    × (pos 1 ≡ pos 1)
    × (pos 900 ≡ pos 900)
build_canonical_payload-injective_example =
    build_canonical_payload-injective (pos 0) (pos 0) address address (pos 60) (pos 60) key key
      address address (pos 1) (pos 1) (pos 900) (pos 900) (ground arith) (ground arith)
      (ground arith) (ground arith) (ground arith) (ground arith) (ground arith) (ground arith)
      (ground arith) (ground arith) refl
