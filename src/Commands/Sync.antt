-- ===== src/Commands/Sync.antt =====
-- agent/block_command_sync.go: the block list that the agent fetches, and what it makes of it.
use kerneleye.Base.{
  ◌^◌, Bool, false, not, ◌||◌, Option, none, some, List, [], ◌∷◌, length, ◌==◌, if◌then◌else◌,
}
use kerneleye.Base.Str.{Str, str, str_eq}
use kerneleye.Base.Dict.{Dict, insert}
use kerneleye.Base.Int.{ℤ, pos, ◌*ℤ◌, ltb_ℤ, leb_ℤ, eqb_ℤ}
use kerneleye.Signing.{Sys, NonceTracker, BlockListEntry, check, verify, build_block_list_payload}
use kerneleye.Commands.{
  rate_limit, block, Call, BlockListResponse, Env, Client, Reject, keep_nonce, duration_of,
  unsigned, replayed, rpc_failed, bad_signature,
}

pub data Fetched : Type 0 where
  fetched : BlockListResponse → Fetched
  failed : Reject → Fetched

-- The checks of `fetchBlockList` on a response, with a key; they read the tracker once.
unfoldable pub check_list : Sys → Env → NonceTracker → BlockListResponse → Option Reject
check_list s env t resp =
    if length resp.signature == 0 || leb_ℤ resp.nonce (pos 0)
    then some unsigned
    else if not (check t resp.nonce)
    then some replayed
    else elim (verify s env.key resp.nonce (build_block_list_payload resp.blocks) resp.signature) [
      | some e ↦ some (bad_signature e)
      | none ↦ none
    ]

-- `fetchBlockList` on the answer of the RPC, `none` if it failed, where no other call records a nonce
-- between its `Check` and its `persistNonce`.
unfoldable pub fetch_block_list : Sys → Env → Client → Option BlockListResponse → Fetched × Client
unfolding check_list keep_nonce
fetch_block_list s env c none = (failed rpc_failed, c)
fetch_block_list s env c (some resp) =
    if length env.key == 0 then (fetched resp, c) else elim (check_list s env c.tracker resp) [
      | some e ↦ (failed e, c)
      | none ↦ (fetched resp, keep_nonce s env c resp.nonce)
    ]

-- `block.ExpiresAt > 0 && time.Now().After(time.Unix(block.ExpiresAt, 0))`
unfoldable pub is_expired : ℤ → BlockListEntry → Bool
is_expired now e =
    if ltb_ℤ (pos 0) e.expires_at then ltb_ℤ (e.expires_at *ℤ pos (10 ^ 9)) now else false

-- What one entry of the list makes `SyncBlockList` call.
unfoldable pub sync_entry : Client → BlockListEntry → Option Call
unfolding duration_of
sync_entry c e =
    let duration = duration_of e.duration_seconds in
    if eqb_ℤ e.block_type (pos 2)
    then (if c.has_on_rate_limit then some (rate_limit e.ip_address duration e.reason) else none)
    else if c.has_on_block
    then some (block e.ip_address duration e.reason)
    else none

-- The calls of a `SyncBlockList`, in order.
unfoldable pub sync_entries : Client → ℤ → List BlockListEntry → List Call
unfolding is_expired sync_entry
sync_entries c now [] = []
sync_entries c now (e ∷ es) =
    let rest = sync_entries c now es in
    if is_expired now e
    then rest
    else elim (sync_entry c e) [ none ↦ rest | some call ↦ call ∷ rest ]

unfoldable pub sync_block_list :
    Sys → Env → Client → Option BlockListResponse → Option (List Call) × Client
sync_block_list s env c answer =
    let (result, c') = fetch_block_list s env c answer in
    elim result [
      | failed e ↦ (none, c')
      | fetched resp ↦ (some (sync_entries c' env.now resp.blocks), c')
    ]

-- `Reconcile` first collects the addresses of the live entries in a map,
unfoldable pub backend_blocks : ℤ → List BlockListEntry → Dict ℤ → Dict ℤ
unfolding is_expired
backend_blocks now [] m = m
backend_blocks now (e ∷ es) m =
    backend_blocks now es (if is_expired now e then m else insert e.ip_address e.block_type m)

-- then takes for each the duration of the first entry of the response with that address,
unfoldable pub first_duration : Str → List BlockListEntry → ℤ
unfolding duration_of
first_duration ip [] = pos 0
first_duration ip (e ∷ es) =
    if str_eq e.ip_address ip then duration_of e.duration_seconds else first_duration ip es

-- and blocks it, whatever its block type.
unfoldable pub reconcile_entries : Client → List BlockListEntry → Dict ℤ → List Call
unfolding first_duration
reconcile_entries c blocks [] = []
reconcile_entries c blocks ((ip, block_type) ∷ m) =
    let rest = reconcile_entries c blocks m in
    if c.has_on_block then block ip (first_duration ip blocks) (str "reconcile") ∷ rest else rest

unfoldable pub reconcile :
    Sys → Env → Client → Option BlockListResponse → Option (List Call) × Client
reconcile s env c answer =
    let (result, c') = fetch_block_list s env c answer in
    elim result [
      | failed e ↦ (none, c')
      | fetched resp ↦
          (some (reconcile_entries c' resp.blocks (backend_blocks env.now resp.blocks [])), c')
    ]
