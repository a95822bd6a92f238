-- ===== src/Commands/Overlap.antt =====
-- agent/block_command_verify.go and block_command_sync.go where calls overlap: `receiveLoop`, `SyncBlockList`
-- and the ticker of `Reconcile` are goroutines, and no lock spans a call's `Check`, `Record` and
-- `persistNonce`.
use kerneleye.Base.{◌≡◌, ◌≢◌, true, none, List, [], ◌∷◌, ◌++◌, arith}
use kerneleye.Base.Int.{ℤ, ◌≤ℤ◌, ltb_ℤ}
use kerneleye.Signing.{Sys, NonceTracker, check, record_nonce}
use kerneleye.Commands.{BlockCommand, BlockListResponse, Env, Client, check_command, persist_nonce}
use kerneleye.Commands.Sync.{check_list}

-- A call that has passed its checks under a nonce: what it still has to do.
pub data Task : Type 0 where
  checked : ℤ → Task  -- before `Record`
  recorded : ℤ → Task  -- before `persistNonce`

-- The client, and the calls that are under way.
pub record Agent : Type 0 where
  pub client : Client
  pub tasks : List Task

-- One step of one call; each of `Check` and `Record` holds the tracker's lock by itself.
pub data Move (s : Sys) (a : Agent) : Agent → Type 0 where
  passes :
      (env : Env) (cmd : BlockCommand)
      → check_command s env a.client.tracker cmd ≡ none
      → Move s a (record a { tasks = checked cmd.nonce ∷ a.tasks })
  lists :
      (env : Env) (resp : BlockListResponse)
      → env.key ≢ []
      → check_list s env a.client.tracker resp ≡ none
      → Move s a (record a { tasks = checked resp.nonce ∷ a.tasks })
  records :
      (before : List Task) (n : ℤ) (after : List Task)
      → a.tasks ≡ before ++ checked n ∷ after
      → Move s a (record {
        client = record a.client { tracker = record_nonce a.client.tracker n };
        tasks = before ++ recorded n ∷ after;
      })
  persists :
      (env : Env) (before : List Task) (n : ℤ) (after : List Task)
      → a.tasks ≡ before ++ recorded n ∷ after
      → Move s a (record { client = persist_nonce s env a.client n; tasks = before ++ after })

-- Any number of steps, in any order.
pub data Run (s : Sys) (a : Agent) : Agent → Type 0 where
  stays : Run s a a
  moves : {b c : Agent} → Run s a b → Move s b c → Run s a c

last : Agent → ℤ
last a = a.client.tracker.last_seen

Move-rises : (s : Sys) (a b : Agent) → Move s a b → last a ≤ℤ last b
unfolding last record_nonce persist_nonce
Move-rises s a _ (passes env cmd e) = ground arith
Move-rises s a _ (lists env resp k e) = ground arith
Move-rises s a _ (records before n after e) = ground arith
Move-rises s a _ (persists env before n after e) = ground arith

Run-rises : (s : Sys) (a b : Agent) → Run s a b → last a ≤ℤ last b
unfolding last
Run-rises s a _ stays = ground arith
Run-rises s a c (moves {b} r m) = ground (arith, Run-rises s a b r, Move-rises s b c m)

check_command-fresh :
    (s : Sys) (env : Env) (t : NonceTracker) (cmd : BlockCommand)
    → check_command s env t cmd ≡ none
    → ltb_ℤ t.last_seen cmd.nonce ≡ true
unfolding check_command check
check_command-fresh s env t cmd h = ground arith

check_list-fresh :
    (s : Sys) (env : Env) (t : NonceTracker) (resp : BlockListResponse)
    → check_list s env t resp ≡ none
    → ltb_ℤ t.last_seen resp.nonce ≡ true
unfolding check_list check
check_list-fresh s env t resp h = ground arith

module _ (s : Sys) (a b : Agent) (n : ℤ) where
  -- However calls overlap: once one of them has recorded its nonce, no command and no signed block list
  -- with that nonce or a lower one passes its checks any more, until the agent restarts.
  pub Run-refuses :
      (before after : List Task) (env : Env) (cmd : BlockCommand) (resp : BlockListResponse)
      → Run s
          (record {
            client = record a.client { tracker = record_nonce a.client.tracker n };
            tasks = before ++ recorded n ∷ after;
          })
          b
      → cmd.nonce ≤ℤ n
      → resp.nonce ≤ℤ n
      → (check_command s env b.client.tracker cmd ≢ none)
        × (check_list s env b.client.tracker resp ≢ none)
  unfolding last record_nonce
  Run-refuses before after env cmd resp run le le' =
      let rises = Run-rises s _ b run in
      (
        λ h. ground (arith, rises, le, check_command-fresh s env b.client.tracker cmd h),
        λ h. ground (arith, rises, le', check_list-fresh s env b.client.tracker resp h),
      )

-- A command that passes its checks can be delivered twice at once, and then passes them twice: two calls
-- under way have its nonce, and either goes on to be obeyed.
pub Run-twice :
    (s : Sys) (a : Agent) (env : Env) (cmd : BlockCommand)
    → check_command s env a.client.tracker cmd ≡ none
    → Run s a (record a { tasks = checked cmd.nonce ∷ checked cmd.nonce ∷ a.tasks })
Run-twice s a env cmd h = moves (moves stays (passes env cmd h)) (passes env cmd h)
