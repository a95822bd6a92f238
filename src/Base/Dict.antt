-- ===== src/Base/Dict.antt =====
-- A Go map with string keys, as an association list. `range` visits the entries of the list.
use kerneleye.Base.Tests.{if◌then◌else◌}
use kerneleye.Base.Lists.{length}
use kerneleye.Base.Str.{Str, str_eq, str_eq_iff}
use Prim.Native.Nat.{suc, ◌≤◌, ◌<◌}
use mathlib.Core.Path.{◌≡◌, refl}
use mathlib.Core.Bool.{Bool, true, false}
use mathlib.Core.Option.{Option, none, some}
use mathlib.Core.List.{List, [], ◌∷◌}
use native.Mathlib.Omega.{arith}

abbrev pub Dict {ℓ} : Type ℓ → Type ℓ
Dict V = List (Str × V)

module _ {ℓ} {V : Type ℓ} where
  -- `v, ok := m[k]`
  unfoldable pub lookup : Str → Dict V → Option V
  lookup k [] = none
  lookup k ((j, v) ∷ m) = if str_eq j k then some v else lookup k m

  -- `_, ok := m[k]`
  abbrev pub contains : Str → Dict V → Bool
  contains k m = elim (lookup k m) [ none ↦ false | some _ ↦ true ]

  -- `m[k] = v`
  unfoldable pub insert : Str → V → Dict V → Dict V
  insert k v [] = (k, v) ∷ []
  insert k v ((j, w) ∷ m) = if str_eq j k then (k, v) ∷ m else (j, w) ∷ insert k v m

  -- `delete(m, k)`
  unfoldable pub erase : Str → Dict V → Dict V
  erase k [] = []
  erase k ((j, w) ∷ m) = if str_eq j k then erase k m else (j, w) ∷ erase k m

  pub lookup-insert :
      (k j : Str) (v : V) (m : Dict V)
      → lookup j (insert k v m) ≡ (if str_eq k j then some v else lookup j m)
  unfolding lookup insert
  lookup-insert k j v [] = refl
  lookup-insert k j v ((i, w) ∷ m) =
      ground (arith, str_eq_iff k j, str_eq_iff i k, str_eq_iff i j, lookup-insert k j v m)

  pub lookup-erase :
      (k j : Str) (m : Dict V) → lookup j (erase k m) ≡ (if str_eq k j then none else lookup j m)
  unfolding lookup erase
  lookup-erase k j [] = ground arith
  lookup-erase k j ((i, w) ∷ m) =
      ground (arith, str_eq_iff k j, str_eq_iff i k, str_eq_iff i j, lookup-erase k j m)

  pub length-insert-le : (k : Str) (v : V) (m : Dict V) → length (insert k v m) ≤ suc (length m)
  unfolding insert
  length-insert-le k v [] = omega arith
  length-insert-le k v ((j, w) ∷ m) = ground (arith, length-insert-le k v m)

  pub length-erase-le : (k : Str) (m : Dict V) → length (erase k m) ≤ length m
  unfolding erase
  length-erase-le k [] = omega arith
  length-erase-le k ((j, w) ∷ m) = ground (arith, length-erase-le k m)

  -- Erasing a key that is there makes room.
  pub length-erase_lt :
      (k : Str) (m : Dict V) (v : V) → lookup k m ≡ some v → length (erase k m) < length m
  unfolding lookup erase
  length-erase_lt k [] v h = ground arith
  length-erase_lt k ((j, w) ∷ m) v h = ground (arith, length-erase-le k m, length-erase_lt k m v)

  -- No key stands twice: what a Go map guarantees.
  abbrev pub Unique : Dict V → Type ℓ
  Unique [] = Unit {ℓ}
  Unique ((k, v) ∷ m) = (lookup k m ≡ none) × Unique m

  -- `for k, v := range m { if !p(k, v) { delete(m, k) } }`
  unfoldable pub retain : (Str → V → Bool) → Dict V → Dict V
  retain p [] = []
  retain p ((k, v) ∷ m) = if p k v then (k, v) ∷ retain p m else retain p m

  pub insert-Unique : (k : Str) (v : V) (m : Dict V) → Unique m → Unique (insert k v m)
  unfolding insert lookup
  insert-Unique k v [] u = (refl, tt)
  insert-Unique k v ((j, w) ∷ m) u =
      ground (arith, insert-Unique k v m u.1, lookup-insert k j v m, str_eq_iff j k, str_eq_iff k j)

  pub erase-Unique : (k : Str) (m : Dict V) → Unique m → Unique (erase k m)
  unfolding erase
  erase-Unique k [] u = tt
  erase-Unique k ((j, w) ∷ m) u = ground (arith, erase-Unique k m u.1, lookup-erase k j m)

  lookup-retain-none :
      (p : Str → V → Bool) (k : Str) (m : Dict V) → lookup k m ≡ none → lookup k (retain p m) ≡ none
  unfolding retain lookup
  lookup-retain-none p k [] h = refl
  lookup-retain-none p k ((j, w) ∷ m) h = ground (arith, lookup-retain-none p k m)

  pub retain-Unique : (p : Str → V → Bool) (m : Dict V) → Unique m → Unique (retain p m)
  unfolding retain
  retain-Unique p [] u = tt
  retain-Unique p ((k, v) ∷ m) u =
      ground (arith, retain-Unique p m u.1, lookup-retain-none p k m u.0)

  -- A key is kept with its value if the test passes, and is gone if not.
  pub lookup-retain :
      (p : Str → V → Bool) (k : Str) (m : Dict V)
      → Unique m
      → lookup k (retain p m)
        ≡ elim (lookup k m) [ none ↦ none | some v ↦ if p k v then some v else none ]
  unfolding retain lookup
  lookup-retain p k [] u = refl
  lookup-retain p k ((j, w) ∷ m) u =
      ground (arith, str_eq_iff j k, lookup-retain p k m u.1, lookup-retain-none p k m)

  pub length-retain-le : (p : Str → V → Bool) (m : Dict V) → length (retain p m) ≤ length m
  unfolding retain
  length-retain-le p [] = omega arith
  length-retain-le p ((k, v) ∷ m) = ground (arith, length-retain-le p m)

  -- A key that is there is overwritten, and a new one takes one more place.
  pub length-insert :
      (k : Str) (v : V) (m : Dict V)
      → length (insert k v m) ≡ (if contains k m then length m else suc (length m))
  unfolding insert lookup
  length-insert k v [] = refl
  length-insert k v ((j, w) ∷ m) = ground (arith, length-insert k v m)
