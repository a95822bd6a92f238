-- ===== src/Tests/Blocks.antt =====
-- Runs of the theorems on the block manager and its decisions.
use kerneleye.Base.{
  ◌*◌, ◌≡◌, ◌≢◌, ◌↔◌, refl, true, false, not, ◌&&◌, ltb, if◌then◌else◌, none, some, [], ◌∷◌, arith,
}
use kerneleye.Base.Str.{str}
use kerneleye.Base.Dict.{lookup}
use kerneleye.Base.Int.{pos}
use kerneleye.BlockManager.{
  Manager, Row, Answers, ActiveBlock, evaluate_row, consider, create_block, record_block,
  evaluate_and_block, cleanup_expired_blocks, active_block,
}
use kerneleye.BlockManager.Matrix.{History, determine_enforcement, hour, permanent}
use kerneleye.BlockManager.Escalates.{
  AtMost, Within, determine_enforcement-escalates, determine_enforcement_mono,
  determine_enforcement-inverts, determine_enforcement-permanent_iff,
}
use kerneleye.BlockManager.Active.{Blocks, commanded, evaluate_and_block-Blocks}
use kerneleye.BlockManager.Lifetime.{evaluate_row_guarded, cleanup_expired_blocks-lookup}
use kerneleye.Tests.{sys, key, address}

abbrev row : Row
row = record {
  server_id = str "s1";
  server_name = str "web";
  user_id = some (str "u1");
  source_ip = address;
  is_v6 = false;
  threat_score = pos 75;
  threat_level = str "malicious";
  threat_type = str "syn_flood";
  total_syn = 900;
  unique_ports = 1;
  total_failed = 0;
  top_target_port = 22;
  top_protocol = str "tcp";
  top_service_name = [];
}

abbrev answers : Answers
answers = record {
  key = key;
  now = 1000;
  inserted_at = 1001;
  kept_at = 1009;
  nonce = pos 5;
  acted_at = pos 900;
  whitelisted = some false;
  history = some (record { block_count = 1; ratelimit_count = 0; permanent_count = 0 });
  block_id = some (str "b1");
}

abbrev manager : Manager
manager = record { base_block_duration = hour; has_hub = true; active_blocks = [] }

evaluate_and_block-Blocks_example :
    let r = evaluate_and_block sys manager ((row, answers) ∷ (row, answers) ∷ []) in
    Blocks [] r.0.active_blocks (commanded r.1)
evaluate_and_block-Blocks_example =
    evaluate_and_block-Blocks sys manager ((row, answers) ∷ (row, answers) ∷ [])

acts : evaluate_row sys manager row answers ≢ (manager, [])
unfolding evaluate_row consider create_block record_block lookup
acts = ground arith

evaluate_row_guarded_example :
    (lookup address manager.active_blocks ≡ none) × (some false ≡ some false)
evaluate_row_guarded_example = evaluate_row_guarded sys manager row answers acts

abbrev old : ActiveBlock
old = active_block row (determine_enforcement hour (pos 75) [] none) 5 6

abbrev held : Manager
held = record manager { active_blocks = (address, old) ∷ [] }

only : lookup address manager.active_blocks ≡ none
unfolding lookup
only = refl

cleanup_expired_blocks-lookup_example :
    lookup address (cleanup_expired_blocks 10 held).active_blocks
    ≡ elim (lookup address ((address, old) ∷ [])) [
      | none ↦ none
      | some b ↦ if not b.is_permanent && ltb b.expires_at 10 then none else some b
    ]
cleanup_expired_blocks-lookup_example = cleanup_expired_blocks-lookup 10 held address (only, tt)

abbrev few : History
few = record { block_count = 0; ratelimit_count = 1; permanent_count = 0 }

abbrev many : History
many = record { block_count = 0; ratelimit_count = 2; permanent_count = 0 }

more : Within few many
more = record { blocks = ground arith; ratelimits = ground arith; permanents = ground arith }

determine_enforcement-escalates_example :
    AtMost
      (determine_enforcement hour (pos 45) [] (some few))
      (determine_enforcement hour (pos 45) [] (some many))
determine_enforcement-escalates_example =
    determine_enforcement-escalates hour (pos 45) [] few many (ground arith) (ground arith) more

determine_enforcement_mono_example :
    AtMost
      (determine_enforcement (2 * hour) (pos 45) [] (some many))
      (determine_enforcement (2 * hour) (pos 55) [] (some many))
determine_enforcement_mono_example =
    determine_enforcement_mono (2 * hour) (pos 45) (pos 55) [] many (ground arith) (ground arith)
      (ground arith)

determine_enforcement-inverts_example :
    ¬ AtMost
      (determine_enforcement hour (pos 45) [] (some many))
      (determine_enforcement hour (pos 55) [] (some many))
determine_enforcement-inverts_example =
    determine_enforcement-inverts hour (pos 45) (pos 55) [] many (ground arith) (ground arith)
      (ground arith) (ground arith) (ground arith) refl (ground arith) refl

determine_enforcement-permanent_iff_example :
    let d = determine_enforcement hour (pos 95) [] none in (d.kind ≡ permanent) ↔ (d.duration ≡ 0)
determine_enforcement-permanent_iff_example =
    determine_enforcement-permanent_iff hour (pos 95) [] none (ground arith)
