-- ===== src/Commands/Replay.antt =====
-- The nonces of commands, block lists and restarts that come one after the other.
use kerneleye.Base.{
  ◌≡◌, ◌⊎◌, inl, inr, true, Option, none, some, List, [], ◌∷◌, All, arith, length, ◌==◌,
  if◌then◌else◌,
}
use kerneleye.Base.Int.{ℤ, pos}
use kerneleye.Base.Word.{InI64}
use kerneleye.Signing.{Sys, SysLaws, check, record_nonce}
use kerneleye.Commands.{
  check_command, keep_nonce, BlockCommand, BlockListResponse, Env, Client, verify_command,
  persist_nonce, load_nonce,
}
use kerneleye.Commands.Sync.{fetched, failed, fetch_block_list, check_list}
use kerneleye.Commands.Verify.{Ltz}

-- What reaches the client: a command, the answer to a `GetBlockList`, or a restart of the agent.
pub data Event : Type 0 where
  command : Env → BlockCommand → Event
  listing : Env → Option BlockListResponse → Event
  restart : Event

-- The nonce under which an event is accepted, if it is; without a key a block list has none.
pub accepted : Sys → Client → Event → Option ℤ
accepted s c (command env cmd) = elim (verify_command s env c cmd).0 [
  | none ↦ some cmd.nonce
  | some e ↦ none
]
accepted s c (listing env answer) = elim (fetch_block_list s env c answer).0 [
  | fetched resp ↦ if length env.key == 0 then none else some resp.nonce
  | failed e ↦ none
]
accepted s c restart = none

-- A restart makes a new tracker and loads the file.
pub after : Sys → Client → Event → Client
after s c (command env cmd) = (verify_command s env c cmd).1
after s c (listing env answer) = (fetch_block_list s env c answer).1
after s c restart = load_nonce s (record c { tracker = record { last_seen = pos 0 } })

-- The nonces that a run of events accepts, in order.
pub accepted_nonces : Sys → Client → List Event → List ℤ
unfolding accepted after
accepted_nonces s c [] = []
accepted_nonces s c (e ∷ es) =
    let rest = accepted_nonces s (after s c e) es in
    elim (accepted s c e) [ none ↦ rest | some n ↦ n ∷ rest ]

-- Each is above the one before it.
abbrev pub Rising : ℤ → List ℤ → Type 0
Rising low [] = Unit
Rising low (n ∷ ns) = Ltz low n × Rising n ns

-- The file holds the tracker's nonce, or neither has seen one.
abbrev pub IsPersisted : Sys → Client → Type 0
IsPersisted s c =
    ((c.nonce_file ≡ none) × (c.tracker.last_seen ≡ pos 0))
    ⊎ ((c.nonce_file ≡ some (s.format_int c.tracker.last_seen))
        × InI64 c.tracker.last_seen
        × Ltz (pos 0) c.tracker.last_seen)

-- The nonce file can be written, and a nonce is an int64.
abbrev pub IsUsual : Event → Type 0
IsUsual (command env cmd) = (env.disk_ok ≡ true) × InI64 cmd.nonce
IsUsual (listing env none) = Unit
IsUsual (listing env (some resp)) = (env.disk_ok ≡ true) × InI64 resp.nonce
IsUsual restart = Unit

module _ (s : Sys) (laws : SysLaws s) where
  -- What one event does to the tracker.
  abbrev Advances : Client → Option ℤ → Client → Type 0
  Advances c none c' = (c'.tracker.last_seen ≡ c.tracker.last_seen) × IsPersisted s c'
  Advances c (some n) c' = Ltz c.tracker.last_seen n × (c'.tracker.last_seen ≡ n) × IsPersisted s c'

  command-Advances :
      (c : Client) (env : Env) (cmd : BlockCommand)
      → IsPersisted s c
      → IsUsual (command env cmd)
      → Advances c (accepted s c (command env cmd)) (after s c (command env cmd))
  unfolding accepted after verify_command check_command keep_nonce check record_nonce persist_nonce
  command-Advances c env cmd p u = ground arith

  listing-Advances :
      (c : Client) (env : Env) (answer : Option BlockListResponse)
      → IsPersisted s c
      → IsUsual (listing env answer)
      → Advances c (accepted s c (listing env answer)) (after s c (listing env answer))
  unfolding accepted after fetch_block_list check_list keep_nonce check record_nonce persist_nonce
  listing-Advances c env none p u = ground arith
  listing-Advances c env (some resp) p u = ground arith

  restart-Advances :
      (c : Client) → IsPersisted s c → Advances c (accepted s c restart) (after s c restart)
  unfolding accepted after load_nonce record_nonce
  restart-Advances c (inl p) = ground arith
  restart-Advances c (inr p) =
      ground
        (arith, laws.parse-format c.tracker.last_seen p.1, laws.trim-format c.tracker.last_seen)

  event-Advances :
      (c : Client) (e : Event)
      → IsPersisted s c
      → IsUsual e
      → Advances c (accepted s c e) (after s c e)
  event-Advances c (command env cmd) p u = command-Advances c env cmd p u
  event-Advances c (listing env answer) p u = listing-Advances c env answer p u
  event-Advances c restart p u = restart-Advances c p

  Rising-cons :
      (c c' : Client) (o : Option ℤ) (ns : List ℤ)
      → Advances c o c'
      → Rising c'.tracker.last_seen ns
      → Rising c.tracker.last_seen (elim o [ none ↦ ns | some n ↦ n ∷ ns ])
  Rising-cons c c' none ns m r = rw (← m.0) r
  Rising-cons c c' (some n) ns m r = (m.0, rw (← m.1) r)

  -- Whatever commands, block lists and restarts reach the agent, in any order and number, but each call
  -- ended before the next begins, the nonces that it accepts rise strictly above the last one it has seen: none is accepted twice. The nonces
  -- are int64, the nonce file can be written, and at the start it agrees with the tracker.
  pub accepted_nonces-Rising :
      (c : Client) (es : List Event)
      → IsPersisted s c
      → All IsUsual es
      → Rising c.tracker.last_seen (accepted_nonces s c es)
  unfolding accepted_nonces
  accepted_nonces-Rising c [] p u = tt
  accepted_nonces-Rising c (e ∷ es) p u =
      let m = event-Advances c e p u.0 in
      Rising-cons c (after s c e) (accepted s c e) _ m
        (accepted_nonces-Rising (after s c e) es (persisted (accepted s c e) m) u.1)
    where
      persisted : (o : Option ℤ) → Advances c o (after s c e) → IsPersisted s (after s c e)
      persisted none m = m.1
      persisted (some n) m = m.2
