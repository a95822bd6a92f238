-- ===== src/Hub.antt =====
-- backend/internal/api/websocket.go: the agents' command channels in `Hub`; the dashboard's sockets are
-- the child Clients.
pub mod Clients
use kerneleye.Base.{
  ℕ, ◌≤◌, ◌≡◌, Option, none, some, List, [], ◌∷◌, ◌++◌, length, length-append, ltb, arith,
  if◌then◌else◌, Option-cases, inl, inr,
}
use kerneleye.Base.Str.{Str}
use kerneleye.Base.Dict.{Dict, lookup, insert, erase, lookup-insert}
use kerneleye.Base.Int.{ℤ}

-- The `map[string]interface{}` of a command. A key that some writer leaves out is an `Option`; the
-- three that signing adds are texts.
pub record HubCommand : Type 0 where
  pub action : Str
  pub ip : Str
  pub duration : Option ℤ
  pub reason : Str
  pub block_id : Option Str
  pub block_type : Option Str
  pub signature : Option Str
  pub nonce : Option Str
  pub issued_at_unix_nano : Option Str

-- A channel of `StreamBlockCommands` holds ten commands, oldest first.
abbrev pub channel_size : ℕ
channel_size = 10

abbrev pub Channels : Type 0
Channels = Dict (List HubCommand)

unfoldable pub register_agent : Str → Channels → Channels
register_agent client h = insert client [] h

unfoldable pub unregister_agent : Str → Channels → Channels
unregister_agent client h = erase client h

-- `SendCommandToAgent`: an agent that is not connected, or whose channel is full, loses the command.
unfoldable pub send_command_to_agent : Str → HubCommand → Channels → Channels
send_command_to_agent client cmd h = elim (lookup client h) [
  | none ↦ h
  | some queue ↦ if ltb (length queue) channel_size then insert client (queue ++ cmd ∷ []) h else h
]

-- No channel is over its size.
abbrev pub IsBounded : Channels → Type 0
IsBounded h =
    (client : Str) (queue : List HubCommand)
    → lookup client h ≡ some queue
    → length queue ≤ channel_size

-- Sending keeps every channel within its size.
pub send_command_to_agent-IsBounded :
    (client : Str) (cmd : HubCommand) (h : Channels)
    → IsBounded h
    → IsBounded (send_command_to_agent client cmd h)
unfolding send_command_to_agent
send_command_to_agent-IsBounded client cmd h bounded other queue found =
    elim (Option-cases (lookup client h)) [
      | inl absent ↦ ground (arith, bounded other queue)
      | inr (old, present) ↦ ground (
        arith,
        lookup-insert client other (old ++ cmd ∷ []) h,
        length-append old (cmd ∷ []),
        bounded other queue,
      )
    ]
