-- ===== src/Analyzer/Wellformed.antt =====
-- The analyzer's bounded state.
use kerneleye.Base.{
  ℕ, ◌+◌, ◌-◌, ◌≤◌, Bool-cases, subst, ◌<◌, ◌≡◌, refl, Bool, true, false, not, none, some, List, [],
  ◌∷◌, length, length-set, length-replicate, arith, Option-cases, inl, inr,
}
use kerneleye.Base.Str.{Str, str_eq, str_eq_refl}
use kerneleye.Base.Dict.{
  Dict, lookup, erase, retain, Unique, lookup-erase, erase-Unique, length-erase_lt, retain-Unique,
  length-retain-le,
}
use kerneleye.Analyzer.{
  AnalyzerConfig, IpState, Analyzer, new_analyzer, TrafficEvent, push_syn, check_ports, check_syn,
  judge, new_state, drop_last, get_or_create_state, evaluate, should_evict, prune,
}

-- The ring has one entry more than the threshold, and its index and length are within it.
pub record IsRing (n : ℕ) (s : IpState) : Type 0 where
  pub size : length s.syns ≡ n + 1
  pub index : s.syn_idx < n + 1
  pub used : s.syn_len ≤ n + 1

abbrev pub Rings : ℕ → Dict IpState → Type 0
Rings n [] = Unit
Rings n ((ip, s) ∷ m) = IsRing n s × Rings n m

-- At most as many states as configured, none of them twice, each with a ring.
pub record IsBounded (a : Analyzer) : Type 0 where
  pub rings : Rings a.config.syn_flood_threshold a.states
  pub unique : Unique a.states
  pub room : length a.states ≤ a.config.max_states

push_syn-IsRing : (n now : ℕ) (s : IpState) → IsRing n s → IsRing n (push_syn now s)
unfolding push_syn
push_syn-IsRing n now s r = record {
  size = ground (arith, length-set s.syns s.syn_idx now, r.size);
  index = rw r.size (omega arith);
  used = ground (arith, r.size, r.used);
}

check_ports-IsRing :
    (n : ℕ) (cfg : AnalyzerConfig) (e : TrafficEvent) (s : IpState)
    → IsRing n s
    → IsRing n (check_ports cfg e s).0
unfolding check_ports
check_ports-IsRing n cfg e s r = record {
  size = ground (arith, r.size);
  index = ground (arith, r.index);
  used = ground (arith, r.used);
}

judge-IsRing :
    (n : ℕ) (cfg : AnalyzerConfig) (e : TrafficEvent) (s : IpState)
    → IsRing n s
    → IsRing n (judge cfg e s).0
unfolding judge check_syn
judge-IsRing n cfg e s r = ground (
  arith,
  push_syn-IsRing n e.time s r,
  check_ports-IsRing n cfg e s r,
  check_ports-IsRing n cfg e (push_syn e.time s),
)

length-drop_last_le : {A : Type 0} (xs : List A) → length (drop_last xs) ≤ length xs - 1
unfolding drop_last
length-drop_last_le [] = omega arith
length-drop_last_le (x ∷ []) = omega arith
length-drop_last_le (x ∷ (y ∷ ys)) = ground (arith, length-drop_last_le (y ∷ ys))

lookup-drop_last-none :
    (k : Str) (m : Dict IpState) → lookup k m ≡ none → lookup k (drop_last m) ≡ none
unfolding drop_last lookup
lookup-drop_last-none k [] h = refl
lookup-drop_last-none k (x ∷ []) h = refl
lookup-drop_last-none k (x ∷ (y ∷ ys)) h = ground (arith, lookup-drop_last-none k (y ∷ ys))

drop_last-Unique : (m : Dict IpState) → Unique m → Unique (drop_last m)
unfolding drop_last
drop_last-Unique [] u = tt
drop_last-Unique (x ∷ []) u = tt
drop_last-Unique (x ∷ (y ∷ ys)) u =
    (lookup-drop_last-none x.0 (y ∷ ys) u.0, drop_last-Unique (y ∷ ys) u.1)

drop_last-Rings : (n : ℕ) (m : Dict IpState) → Rings n m → Rings n (drop_last m)
unfolding drop_last
drop_last-Rings n [] r = tt
drop_last-Rings n (x ∷ []) r = tt
drop_last-Rings n (x ∷ (y ∷ ys)) r = (r.0, drop_last-Rings n (y ∷ ys) r.1)

erase-Rings : (n : ℕ) (k : Str) (m : Dict IpState) → Rings n m → Rings n (erase k m)
unfolding erase
erase-Rings n k [] r = tt
erase-Rings n k ((j, s) ∷ m) r = ground (arith, erase-Rings n k m r.1)

retain-Rings :
    (n : ℕ) (p : Str → IpState → Bool) (m : Dict IpState) → Rings n m → Rings n (retain p m)
unfolding retain
retain-Rings n p [] r = tt
retain-Rings n p ((j, s) ∷ m) r = ground (arith, retain-Rings n p m r.1)

lookup-Rings :
    (n : ℕ) (k : Str) (m : Dict IpState) (s : IpState)
    → Rings n m
    → lookup k m ≡ some s
    → IsRing n s
unfolding lookup
lookup-Rings n k [] s r h = ground arith
lookup-Rings n k ((j, t) ∷ m) s r h = elim (Bool-cases (str_eq j k)) [
  | inl e ↦ subst (IsRing n) (found e) r.0
  | inr e ↦ lookup-Rings n k m s r.1 (rest e)
]
  where
    found : str_eq j k ≡ true → t ≡ s
    found e = ground (arith, h)

    rest : str_eq j k ≡ false → lookup k m ≡ some s
    rest e = ground (arith, h)

new_state-IsRing : (cfg : AnalyzerConfig) → IsRing cfg.syn_flood_threshold (new_state cfg)
unfolding new_state
new_state-IsRing cfg = record {
  size = length-replicate (cfg.syn_flood_threshold + 1) 0;
  index = omega arith;
  used = omega arith;
}

-- The state that goes to the front has a ring, and the others leave it room.
record IsSplit (a : Analyzer) (ip : Str) (r : IpState × Dict IpState) : Type 0 where
  ring : IsRing a.config.syn_flood_threshold r.0
  rings : Rings a.config.syn_flood_threshold r.1
  unique : Unique r.1
  absent : lookup ip r.1 ≡ none
  room : length r.1 < a.config.max_states

get_or_create_state-IsSplit :
    (a : Analyzer) (ip : Str)
    → 1 ≤ a.config.max_states
    → IsBounded a
    → IsSplit a ip (get_or_create_state a ip)
unfolding get_or_create_state
get_or_create_state-IsSplit a ip pos b = elim (Option-cases (lookup ip a.states)) [
  | inl e ↦
      rw (e, get_or_create_state)
        (record {
          ring = new_state-IsRing a.config;
          rings =
              ground
                (arith, b.rings, drop_last-Rings a.config.syn_flood_threshold a.states b.rings);
          unique = ground (arith, b.unique, drop_last-Unique a.states b.unique);
          absent = ground (arith, e, lookup-drop_last-none ip a.states e);
          room = ground (arith, b.room, length-drop_last_le a.states);
        })
  | inr (s, e) ↦
      rw (e, get_or_create_state)
        (record {
          ring = lookup-Rings _ ip a.states s b.rings e;
          rings = erase-Rings _ ip a.states b.rings;
          unique = erase-Unique ip a.states b.unique;
          absent = ground (arith, lookup-erase ip ip a.states, str_eq_refl ip);
          room = omega (arith, length-erase_lt ip a.states s e, b.room);
        })
]

evaluate-IsBounded :
    (a : Analyzer) (e : TrafficEvent)
    → 1 ≤ a.config.max_states
    → IsBounded a
    → IsBounded (evaluate a e).0
unfolding evaluate
evaluate-IsBounded a e pos b = record {
  rings = (judge-IsRing _ a.config e _ split.ring, split.rings);
  unique = (split.absent, split.unique);
  room = split.room;
}
  where
    split : IsSplit a e.source_ip (get_or_create_state a e.source_ip)
    split = get_or_create_state-IsSplit a e.source_ip pos b

prune-IsBounded : (now : ℕ) (a : Analyzer) → IsBounded a → IsBounded (prune now a)
unfolding prune
prune-IsBounded now a b = record {
  rings = retain-Rings _ _ a.states b.rings;
  unique = retain-Unique _ a.states b.unique;
  room = omega (arith, length-retain-le (λ ip s. not (should_evict now s)) a.states, b.room);
}

-- What happens to an analyzer: an event, or the cleanup at a time.
pub data Step : Type 0 where
  event : TrafficEvent → Step
  cleanup : ℕ → Step

abbrev pub step : Analyzer → Step → Analyzer
step a (event e) = (evaluate a e).0
step a (cleanup now) = prune now a

abbrev pub run : Analyzer → List Step → Analyzer
run a [] = a
run a (x ∷ xs) = run (step a x) xs

step-config : (a : Analyzer) (x : Step) → (step a x).config ≡ a.config
unfolding evaluate prune
step-config a (event e) = refl
step-config a (cleanup now) = refl

run-IsBounded :
    (a : Analyzer) (xs : List Step) → 1 ≤ a.config.max_states → IsBounded a → IsBounded (run a xs)
run-IsBounded a [] pos b = b
run-IsBounded a (event e ∷ xs) pos b =
    run-IsBounded (evaluate a e).0 xs (rw (step-config a (event e)) pos)
      (evaluate-IsBounded a e pos b)
run-IsBounded a (cleanup now ∷ xs) pos b =
    run-IsBounded (prune now a) xs (rw (step-config a (cleanup now)) pos) (prune-IsBounded now a b)

-- Whatever events and cleanups an analyzer meets, it never holds more states than configured (of
-- which the configuration allows one at least), no address has two, and the ring of each keeps one
-- entry more than the threshold, with its index within it.
pub run_new-IsBounded :
    (cfg : AnalyzerConfig) (xs : List Step)
    → 1 ≤ cfg.max_states
    → IsBounded (run (new_analyzer cfg) xs)
unfolding new_analyzer
run_new-IsBounded cfg xs pos =
    run-IsBounded (new_analyzer cfg) xs (ground arith)
      (record { rings = tt; unique = tt; room = ground arith })
