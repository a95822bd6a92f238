-- ===== src/Aggregator/Ports.antt =====
-- The maps from ports of an address's statistics: counting, and the port that is hit most
-- (agent/aggregator.go, `GetPrimaryPortForIP`, and the same loop in agent/flush.go and
-- agent/flush_proto.go).
use kerneleye.Base.{
  ℕ, ◌+◌, ◌≤◌, ◌≡◌, refl, none, some, List, [], ◌∷◌, ltb, ◌==◌, if◌then◌else◌, arith,
}
use kerneleye.Base.Str.{Str}
use kerneleye.Base.Dict.{lookup}
use kerneleye.Aggregator.{Aggregator}

-- `m[port]++`
unfoldable pub bump : ℕ → List (ℕ × ℕ) → List (ℕ × ℕ)
bump port [] = (port, 1) ∷ []
bump port ((p, n) ∷ m) = if p == port then (port, n + 1) ∷ m else (p, n) ∷ bump port m

-- `m[port] = true`
unfoldable pub add_port : ℕ → List ℕ → List ℕ
add_port port [] = port ∷ []
add_port port (p ∷ m) = if p == port then p ∷ m else p ∷ add_port port m

-- `m[port]`
unfoldable pub count_of : ℕ → List (ℕ × ℕ) → ℕ
count_of port [] = 0
count_of port ((p, n) ∷ m) = if p == port then n else count_of port m

unfoldable pub total : List (ℕ × ℕ) → ℕ
total [] = 0
total ((p, n) ∷ m) = n + total m

-- The loop over a map that finds the port with the greatest count, from one found so far.
unfoldable pub busiest : ℕ → ℕ → List (ℕ × ℕ) → ℕ × ℕ
busiest port most [] = (port, most)
busiest port most ((p, n) ∷ m) = if ltb most n then busiest p n m else busiest port most m

-- `GetPrimaryPortForIP`: port, protocol and process.
unfoldable pub get_primary_port_for_ip : Aggregator → Str → ℕ × ℕ × Str
unfolding busiest
get_primary_port_for_ip a ip = elim (lookup ip a.stats.items) [
  | none ↦ (0, 6, [])
  | some s ↦ ((busiest 0 0 s.stats.port_counts).0, s.stats.protocol, s.stats.process_name)
]

pub count-bump :
    (port p : ℕ) (m : List (ℕ × ℕ))
    → count_of p (bump port m) ≡ (if port == p then count_of p m + 1 else count_of p m)
unfolding bump count_of
count-bump port p [] = ground arith
count-bump port p ((q, n) ∷ m) = ground (arith, count-bump port p m)

pub total-bump : (port : ℕ) (m : List (ℕ × ℕ)) → total (bump port m) ≡ total m + 1
unfolding bump total
total-bump port [] = refl
total-bump port ((p, n) ∷ m) = ground (arith, total-bump port m)

most-le-busiest : (port most : ℕ) (m : List (ℕ × ℕ)) → most ≤ (busiest port most m).1
unfolding busiest
most-le-busiest port most [] = omega arith
most-le-busiest port most ((p, n) ∷ m) =
    ground (arith, most-le-busiest p n m, most-le-busiest port most m)

pub count-le-busiest : (q port most : ℕ) (m : List (ℕ × ℕ)) → count_of q m ≤ (busiest port most m).1
unfolding count_of busiest
count-le-busiest q port most [] = omega arith
count-le-busiest q port most ((p, n) ∷ m) = ground (
  arith,
  most-le-busiest p n m,
  most-le-busiest port most m,
  count-le-busiest q p n m,
  count-le-busiest q port most m,
)
