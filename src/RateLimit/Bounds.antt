-- ===== src/RateLimit/Bounds.antt =====
-- How many requests a key gets through in one window, and what a lost EXPIRE does.
use kerneleye.Base.{
  ℕ, ◌+◌, ◌-◌, ◌≤◌, ◌<◌, ◌≡◌, Bool, true, false, Option, none, some, List, [], ◌∷◌, All, length,
  leb, if◌then◌else◌, arith,
}
use kerneleye.Base.Str.{Str, str_eq_refl}
use kerneleye.Base.Dict.{lookup, lookup-insert}
use kerneleye.RateLimit.{
  RateLimitConfig, Redis, Answers, expired, live, incr, after_expire, redis_key, allow,
}

-- Redis answers everything.
abbrev pub ideal : Answers
ideal = record { incr_ok = true; expire_ok = true }

abbrev pub allowed : Option Bool → ℕ
allowed none = 0
allowed (some true) = 1
allowed (some false) = 0

-- How many of a key's requests at some times are allowed.
unfoldable pub allowed_count : RateLimitConfig → Redis → Str → List ℕ → ℕ
unfolding allow
allowed_count config r key [] = 0
allowed_count config r key (t ∷ ts) =
    let a = allow ideal t config r key in allowed a.1 + allowed_count config a.0 key ts

module _ (config : RateLimitConfig) (key : Str) where
  -- A counter that lives until `end`.
  abbrev Holds : Redis → ℕ → ℕ → Type 0
  Holds r n end = lookup (redis_key config key) r ≡ some (record { count = n; expires = some end })

  -- One request of a counter that lives.
  allow-counts :
      (r : Redis) (n end t : ℕ)
      → Holds r n end
      → 1 ≤ n
      → t < end
      → Holds (allow ideal t config r key).0 (n + 1) end
        × ((allow ideal t config r key).1 ≡ some (leb (n + 1) config.requests))
  unfolding allow incr live expired after_expire
  allow-counts r n end t h pos_n lt = ground (
    arith,
    h,
    lookup-insert (redis_key config key) (redis_key config key)
        (record { count = n + 1; expires = some end }) r,
    str_eq_refl (redis_key config key),
  )

  -- Of the requests while a counter lives, the first that fit the limit are allowed.
  count-live :
      (r : Redis) (n end : ℕ) (ts : List ℕ)
      → Holds r n end
      → 1 ≤ n
      → All (λ t. t < end) ts
      → allowed_count config r key ts
        ≡ (if leb (n + length ts) config.requests then length ts else config.requests - n)
  unfolding allowed_count
  count-live r n end [] h pos_n before = ground arith
  count-live r n end (t ∷ ts) h pos_n before =
      let a = allow-counts r n end t h pos_n before.0 in
      ground (
        arith,
        a.1,
        count-live (allow ideal t config r key).0 (n + 1) end ts a.0 (omega (arith, pos_n))
            before.1,
      )

  allow-first :
      (r : Redis) (t : ℕ)
      → live t r (redis_key config key) ≡ none
      → Holds (allow ideal t config r key).0 1 (t + config.window)
        × ((allow ideal t config r key).1 ≡ some (leb 1 config.requests))
  unfolding allow incr after_expire
  allow-first r t fresh = ground (
    arith,
    fresh,
    lookup-insert (redis_key config key) (redis_key config key)
        (record { count = 1; expires = some (t + config.window) }) r,
    str_eq_refl (redis_key config key),
  )

  -- Of a key's requests in one window, which starts with a request that finds no counter, exactly the
  -- limit is allowed, or all if they are fewer.
  pub allowed_count-window :
      (r : Redis) (t : ℕ) (ts : List ℕ)
      → live t r (redis_key config key) ≡ none
      → All (λ u. u < t + config.window) ts
      → allowed_count config r key (t ∷ ts)
        ≡ (if leb (1 + length ts) config.requests then 1 + length ts else config.requests)
  unfolding allowed_count
  allowed_count-window r t ts fresh before =
      let a = allow-first r t fresh in
      ground (
        arith,
        a.1,
        count-live (allow ideal t config r key).0 1 (t + config.window) ts a.0 (omega arith) before,
      )

  -- A counter that never vanishes.
  abbrev Forever : Redis → ℕ → Type 0
  Forever r n = lookup (redis_key config key) r ≡ some (record { count = n; expires = none })

  allow-Forever :
      (r : Redis) (n t : ℕ)
      → Forever r n
      → 1 ≤ n
      → Forever (allow ideal t config r key).0 (n + 1)
        × ((allow ideal t config r key).1 ≡ some (leb (n + 1) config.requests))
  unfolding allow incr live expired after_expire
  allow-Forever r n t h pos_n = ground (
    arith,
    h,
    lookup-insert (redis_key config key) (redis_key config key)
        (record { count = n + 1; expires = none }) r,
    str_eq_refl (redis_key config key),
  )

  count-Forever :
      (r : Redis) (n : ℕ) (ts : List ℕ)
      → Forever r n
      → 1 ≤ n
      → allowed_count config r key ts ≤ config.requests - n
  unfolding allowed_count
  count-Forever r n [] h pos_n = ground arith
  count-Forever r n (t ∷ ts) h pos_n =
      let a = allow-Forever r n t h pos_n in
      ground (
        arith,
        a.1,
        count-Forever (allow ideal t config r key).0 (n + 1) ts a.0 (omega (arith, pos_n)),
      )

  allow-lost :
      (r : Redis) (t : ℕ)
      → live t r (redis_key config key) ≡ none
      → Forever (allow (record { incr_ok = true; expire_ok = false }) t config r key).0 1
  unfolding allow incr after_expire
  allow-lost r t fresh = ground (
    arith,
    fresh,
    lookup-insert (redis_key config key) (redis_key config key)
        (record { count = 1; expires = none }) r,
    str_eq_refl (redis_key config key),
  )

  -- If the EXPIRE of a key's first request is lost, then of all its later requests, at whatever times,
  -- fewer than the limit are ever allowed: the key stays shut.
  pub allowed_count-lost_expire :
      (r : Redis) (t : ℕ) (ts : List ℕ)
      → live t r (redis_key config key) ≡ none
      → allowed_count config
          (allow (record { incr_ok = true; expire_ok = false }) t config r key).0
          key
          ts
        ≤ config.requests - 1
  allowed_count-lost_expire r t ts fresh =
      count-Forever (allow (record { incr_ok = true; expire_ok = false }) t config r key).0 1 ts
        (allow-lost r t fresh) (omega arith)
