-- ===== src/Hub/Clients.antt =====
-- backend/internal/api/websocket.go: `Hub.Run`, the dashboards' sockets of each user. One message of the
-- three channels is one step; a socket is a number.
use kerneleye.Base.{
  ℕ, ◌≡◌, refl, Bool, true, false, not, none, some, List, [], ◌∷◌, All, length, keep, ltb, ◌==◌,
  if◌then◌else◌, arith, Bool-cases, Option-cases, inl, inr,
}
use kerneleye.Base.Str.{Str, str_eq, str_eq_iff}
use kerneleye.Base.Dict.{Dict, lookup, insert, erase, lookup-insert, lookup-erase}

-- `clients`: the sockets of each user.
abbrev pub Clients : Type 0
Clients = Dict (List ℕ)

pub data Message : Type 0 where
  register : Str → ℕ → Message
  unregister : Str → ℕ → Message
  broadcast : Str → Message

unfoldable pub add_socket : ℕ → List ℕ → List ℕ
add_socket c [] = c ∷ []
add_socket c (d ∷ cs) = if d == c then d ∷ cs else d ∷ add_socket c cs

-- A user's sockets, or none.
abbrev pub sockets : Str → Clients → List ℕ
sockets user h = elim (lookup user h) [ none ↦ [] | some cs ↦ cs ]

-- The user's sockets are replaced; a user who has none left is deleted.
unfoldable pub put_sockets : Str → List ℕ → Clients → Clients
put_sockets user [] h = erase user h
put_sockets user (c ∷ cs) h = insert user (c ∷ cs) h

-- One round of `Run`, and the sockets that the message was written to; `writes` is whether a write to a
-- socket works, and `marshals` whether the message can be encoded.
unfoldable pub run_step : (ℕ → Bool) → Bool → Message → Clients → Clients × List ℕ
unfolding add_socket put_sockets
run_step writes marshals (register user c) h = (insert user (add_socket c (sockets user h)) h, [])
run_step writes marshals (unregister user c) h = elim (lookup user h) [
  | none ↦ (h, [])
  | some cs ↦ (put_sockets user (keep (λ d. not (d == c)) cs) h, [])
]
run_step writes marshals (broadcast user) h =
    if not marshals then (h, []) else elim (lookup user h) [
      | none ↦ (h, [])
      | some cs ↦ (put_sockets user (keep writes cs) h, keep writes cs)
    ]

unfoldable pub run : (ℕ → Bool) → List Message → Clients → Clients
unfolding run_step
run writes [] h = h
run writes (m ∷ ms) h = run writes ms (run_step writes true m h).0

-- No user is kept without a socket.
abbrev pub Inhabited : Clients → Type 0
Inhabited = All (λ e. ltb 0 (length e.1) ≡ true)

add_socket-nonempty : (c : ℕ) (cs : List ℕ) → ltb 0 (length (add_socket c cs)) ≡ true
unfolding add_socket
add_socket-nonempty c [] = refl
add_socket-nonempty c (d ∷ cs) = ground arith

Inhabited-insert :
    (user : Str) (cs : List ℕ) (h : Clients)
    → ltb 0 (length cs) ≡ true
    → Inhabited h
    → Inhabited (insert user cs h)
unfolding insert
Inhabited-insert user cs [] p i = (p, tt)
Inhabited-insert user cs ((j, ds) ∷ h) p i = elim (Bool-cases (str_eq j user)) [
  | inl e ↦ rw (e, insert) (p, i.1)
  | inr e ↦ rw (e, insert) (i.0, Inhabited-insert user cs h p i.1)
]

Inhabited-erase : (user : Str) (h : Clients) → Inhabited h → Inhabited (erase user h)
unfolding erase
Inhabited-erase user [] i = tt
Inhabited-erase user ((j, ds) ∷ h) i = elim (Bool-cases (str_eq j user)) [
  | inl e ↦ rw (e, erase) (Inhabited-erase user h i.1)
  | inr e ↦ rw (e, erase) (i.0, Inhabited-erase user h i.1)
]

Inhabited-put :
    (user : Str) (cs : List ℕ) (h : Clients) → Inhabited h → Inhabited (put_sockets user cs h)
unfolding put_sockets
Inhabited-put user [] h i = Inhabited-erase user h i
Inhabited-put user (c ∷ cs) h i = Inhabited-insert user (c ∷ cs) h (ground arith) i

-- Whatever the messages and the writes that fail, the hub keeps no user without a socket.
pub run_step-Inhabited :
    (writes : ℕ → Bool) (marshals : Bool) (m : Message) (h : Clients)
    → Inhabited h
    → Inhabited (run_step writes marshals m h).0
unfolding run_step
run_step-Inhabited writes marshals (register user c) h i =
    Inhabited-insert user (add_socket c (sockets user h)) h (add_socket-nonempty c (sockets user h))
      i
run_step-Inhabited writes marshals (unregister user c) h i = elim (Option-cases (lookup user h)) [
  | inl e ↦ rw (e, run_step) i
  | inr (cs, e) ↦ rw (e, run_step) (Inhabited-put user (keep (λ d. not (d == c)) cs) h i)
]
run_step-Inhabited writes false (broadcast user) h i = i
run_step-Inhabited writes true (broadcast user) h i = elim (Option-cases (lookup user h)) [
  | inl e ↦ rw (e, run_step) i
  | inr (cs, e) ↦ rw (e, run_step) (Inhabited-put user (keep writes cs) h i)
]

sockets-put :
    (user other : Str) (cs : List ℕ) (h : Clients)
    → sockets other (put_sockets user cs h) ≡ (if str_eq user other then cs else sockets other h)
unfolding put_sockets
sockets-put user other [] h = ground (arith, lookup-erase user other h)
sockets-put user other (c ∷ cs) h = ground (arith, lookup-insert user other (c ∷ cs) h)

-- A message for one user is written to that user's sockets alone, to all that work, and leaves every
-- other user's sockets as they are.
pub broadcast-sockets :
    (writes : ℕ → Bool) (user other : Str) (h : Clients)
    → ((run_step writes true (broadcast user) h).1 ≡ keep writes (sockets user h))
      × (sockets other (run_step writes true (broadcast user) h).0
          ≡ (if str_eq user other then keep writes (sockets user h) else sockets other h))
unfolding run_step
broadcast-sockets writes user other h = elim (Option-cases (lookup user h)) [
  | inl e ↦ ground (arith, e, str_eq_iff user other)
  | inr (cs, e) ↦ ground (arith, e, sockets-put user other (keep writes cs) h)
]
