-- ===== src/SafeStats.antt =====
-- agent/safemap.go: the bounded map of statistics. Of an entry only `FirstSeen` decides anything here; the
-- rest of it is a parameter.
use kerneleye.Base.{
  ℕ, ◌≤◌, ◌<◌, ◌≡◌, refl, Bool, true, false, none, some, [], ◌∷◌, All, length, ltb, leb, ◌==◌,
  if◌then◌else◌, arith, ◌⊎◌, inl, inr, Bool-cases, ltb→lt, subst,
}
use kerneleye.Base.Str.{Str, str_eq_refl, str_eq_iff}
use kerneleye.Base.Dict.{
  Dict, lookup, insert, erase, Unique, insert-Unique, erase-Unique, length-insert-le,
  length-erase_lt,
}

abbrev pub default_max_stats_items : ℕ
default_max_stats_items = 50000

-- An entry: when it was first seen, and all else.
pub record IpStats (S : Type 0) : Type 0 where
  pub first_seen : ℕ
  pub stats : S

pub record SafeStats (S : Type 0) : Type 0 where
  pub items : Dict (IpStats S)
  pub max_items : ℕ

-- The loop that looks for the oldest entry, from one found so far; the empty address is none.
unfoldable pub find_oldest : {S : Type 0} → Str → ℕ → Dict (IpStats S) → Str
find_oldest oldest_ip oldest_time [] = oldest_ip
find_oldest oldest_ip oldest_time ((k, v) ∷ m) =
    if ltb v.first_seen oldest_time
    then find_oldest k v.first_seen m
    else find_oldest oldest_ip oldest_time m

-- What an insertion at capacity evicts at the time `now`.
unfoldable pub evict : {S : Type 0} → ℕ → Dict (IpStats S) → Dict (IpStats S)
unfolding find_oldest
evict now m = let oldest = find_oldest [] now m in if length oldest == 0 then m else erase oldest m

-- `GetOrCreate`: the entry, and whether it is new.
unfoldable pub get_or_create :
    {S : Type 0} → ℕ → SafeStats S → Str → IpStats S → SafeStats S × IpStats S × Bool
unfolding evict
get_or_create now s ip created = elim (lookup ip s.items) [
  | some v ↦ (s, v, false)
  | none ↦ (
    record s {
      items =
          insert ip created
            (if leb s.max_items (length s.items) then evict now s.items else s.items);
    },
    created,
    true,
  )
]

unfoldable pub set_stats : {S : Type 0} → SafeStats S → Str → IpStats S → SafeStats S
set_stats s ip v = record s { items = insert ip v s.items }

unfoldable pub clear : {S : Type 0} → SafeStats S → SafeStats S × Bool
clear s = (record s { items = [] }, ltb 0 (length s.items))

abbrev SeenBefore : {S : Type 0} → ℕ → Dict (IpStats S) → Type 0
SeenBefore now = All (λ e. e.1.first_seen < now)

abbrev SeenFrom : {S : Type 0} → ℕ → Dict (IpStats S) → Type 0
SeenFrom t = All (λ e. t ≤ e.1.first_seen)

lookup_skip :
    {S : Type 0} (k : Str) (v : IpStats S) (j : Str) (m : Dict (IpStats S)) (w : IpStats S)
    → lookup k m ≡ none
    → lookup j m ≡ some w
    → lookup j ((k, v) ∷ m) ≡ some w
unfolding lookup
lookup_skip k v j m w absent found = ground (arith, absent, found, str_eq_iff k j)

-- What the loop finds: its start, if no entry is older, or the address of an entry that is oldest.
abbrev Found : {S : Type 0} → Str → ℕ → Dict (IpStats S) → Str → Type 0
Found {S} ip time m j =
    ((j ≡ ip) × SeenFrom time m)
    ⊎ ((w : IpStats S) × (lookup j m ≡ some w) × (w.first_seen < time) × SeenFrom w.first_seen m)

taken :
    {S : Type 0} (ip : Str) (time : ℕ) (k : Str) (v : IpStats S) (m : Dict (IpStats S)) (j : Str)
    → lookup k m ≡ none
    → v.first_seen < time
    → Found k v.first_seen m j
    → Found ip time ((k, v) ∷ m) j
unfolding lookup
taken ip time k v m j absent older (inl (e, from)) =
    inr (v, rw (e, str_eq_refl k) refl, older, (omega arith, from))
taken ip time k v m j absent older (inr (w, found, lt, from)) =
    inr (w, lookup_skip k v j m w absent found, omega (arith, lt, older), (omega (arith, lt), from))

passed :
    {S : Type 0} (ip : Str) (time : ℕ) (k : Str) (v : IpStats S) (m : Dict (IpStats S)) (j : Str)
    → lookup k m ≡ none
    → time ≤ v.first_seen
    → Found ip time m j
    → Found ip time ((k, v) ∷ m) j
passed ip time k v m j absent newer (inl (e, from)) = inl (e, (newer, from))
passed ip time k v m j absent newer (inr (w, found, lt, from)) =
    inr (w, lookup_skip k v j m w absent found, lt, (omega (arith, lt, newer), from))

find_oldest-Found :
    {S : Type 0} (ip : Str) (time : ℕ) (m : Dict (IpStats S))
    → Unique m
    → Found ip time m (find_oldest ip time m)
unfolding find_oldest
find_oldest-Found ip time [] u = inl (refl, tt)
find_oldest-Found {S} ip time ((k, v) ∷ m) u = elim (Bool-cases (ltb v.first_seen time)) [
  | inl older ↦
      subst (Found ip time ((k, v) ∷ m)) (first older)
        (taken ip time k v m _ u.0 (ltb→lt _ _ older) (find_oldest-Found k v.first_seen m u.1))
  | inr newer ↦
      subst (Found ip time ((k, v) ∷ m)) (second newer)
        (passed ip time k v m _ u.0 (ground arith) (find_oldest-Found ip time m u.1))
]
  where
    first :
        ltb v.first_seen time ≡ true
        → find_oldest k v.first_seen m ≡ find_oldest ip time ((k, v) ∷ m)
    first e = ground arith

    second :
        ltb v.first_seen time ≡ false → find_oldest ip time m ≡ find_oldest ip time ((k, v) ∷ m)
    second e = ground arith

-- At capacity an entry goes that no other is older than, if all were seen before now and none stands
-- under the empty address.
evict-oldest :
    {S : Type 0} (now : ℕ) (m : Dict (IpStats S))
    → Unique m
    → SeenBefore now m
    → lookup [] m ≡ none
    → 0 < length m
    → (k : Str) × (v : IpStats S) × (lookup k m ≡ some v)
      × SeenFrom v.first_seen m
      × (evict now m ≡ erase k m)
unfolding evict
evict-oldest {S} now m u before named nonempty = outcome _ refl (find_oldest-Found [] now m u)
  where
    clash : (m : Dict (IpStats S)) → 0 < length m → SeenBefore now m → ¬ SeenFrom now m
    clash [] h b f = ground arith
    clash (x ∷ m) h b f = omega (arith, b.0, f.0)

    outcome :
        (j : Str)
        → find_oldest [] now m ≡ j
        → Found [] now m j
        → (k : Str) × (v : IpStats S) × (lookup k m ≡ some v)
          × SeenFrom v.first_seen m
          × (evict now m ≡ erase k m)
    outcome j e (inl (_, from)) = absurd (clash m nonempty before from)
    outcome [] e (inr (w, found, lt, from)) = ground (arith, found, named)
    outcome (b ∷ bs) e (inr (w, found, lt, from)) =
        (b ∷ bs, w, found, from, rw (e, evict) (ground arith))

-- What the map guarantees between calls at the time `now`: within its bound, no address twice and none
-- empty, and all entries first seen before now.
pub record IsSound {S : Type 0} (now : ℕ) (s : SafeStats S) : Type 0 where
  pub unique : Unique s.items
  pub before : All (λ e. e.1.first_seen < now) s.items
  pub named : lookup [] s.items ≡ none
  pub room : length s.items ≤ s.max_items
  pub bound : 1 ≤ s.max_items

-- Where every entry was first seen before the present time, no address stands twice and none is empty, the
-- bound is positive and the map is within it, a new address finds room: the map stays within its bound and has the new entry, and beside it either
-- all entries that it had, or, if it was full, all but one that no other is older than.
pub get_or_create-bounded :
    {S : Type 0} (now : ℕ) (s : SafeStats S) (ip : Str) (created : IpStats S)
    → IsSound now s
    → lookup ip s.items ≡ none
    → let s' = (get_or_create now s ip created).0 in
      (length s'.items ≤ s.max_items)
      × Unique s'.items
      × ((length s.items < s.max_items × (s'.items ≡ insert ip created s.items))
          ⊎ ((k : Str) × (v : IpStats S) × (lookup k s.items ≡ some v)
              × All (λ e. v.first_seen ≤ e.1.first_seen) s.items
              × (s'.items ≡ insert ip created (erase k s.items))))
unfolding get_or_create
get_or_create-bounded {S} now s ip created sound absent =
    elim (Bool-cases (leb s.max_items (length s.items))) [
      | inl at_bound ↦
          let (k, v, found, from, evicted) =
            evict-oldest now s.items sound.unique sound.before sound.named
              (ground (arith, sound.bound, at_bound)) in
          rw (absent, get_or_create, at_bound, evicted)
            (
              omega (
                arith,
                length-insert-le ip created (erase k s.items),
                length-erase_lt k s.items v found,
                sound.room,
              ),
              insert-Unique ip created (erase k s.items) (erase-Unique k s.items sound.unique),
              inr (k, v, found, from, refl),
            )
      | inr free ↦
          rw (absent, get_or_create, free)
            (
              ground (arith, length-insert-le ip created s.items, free),
              insert-Unique ip created s.items sound.unique,
              inl (ground (arith, free), refl),
            )
    ]
