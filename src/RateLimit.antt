-- ===== src/RateLimit.antt =====
-- backend/internal/api/ratelimit.go: a counter in Redis for each key and window. Redis is modelled by what
-- INCR and EXPIRE document: a key counts from 1 and vanishes when its time to live is over.
pub mod Bounds
use kerneleye.Base.{
  ℕ, ◌+◌, ◌*◌, ◌^◌, Bool, true, false, ◌&&◌, Option, none, some, List, [], ◌∷◌, ◌++◌, length, ltb,
  leb, ◌==◌, if◌then◌else◌,
}
use kerneleye.Base.Str.{Str, str, str_eq, starts_with}
use kerneleye.Base.Dict.{Dict, lookup, insert}

-- `RateLimitConfig`; the window in milliseconds, the unit of Redis.
pub record RateLimitConfig : Type 0 where
  pub requests : ℕ
  pub window : ℕ
  pub key_prefix : Str

abbrev pub minute : ℕ
minute = 60000

abbrev limit : ℕ → Str → RateLimitConfig
limit n prefix = record { requests = n; window = minute; key_prefix = prefix }

abbrev pub auth_limit : RateLimitConfig
auth_limit = limit 10 (str "ratelimit:auth")

abbrev pub api_limit : RateLimitConfig
api_limit = limit 100 (str "ratelimit:api")

abbrev pub agent_limit : RateLimitConfig
agent_limit = limit 1000 (str "ratelimit:agent")

abbrev pub websocket_limit : RateLimitConfig
websocket_limit = limit 50 (str "ratelimit:ws")

-- A counter, and when it vanishes; `none` is never.
pub record Counter : Type 0 where
  pub count : ℕ
  pub expires : Option ℕ

abbrev pub Redis : Type 0
Redis = Dict Counter

unfoldable pub expired : ℕ → Counter → Bool
expired now c = elim c.expires [ none ↦ false | some t ↦ leb t now ]

-- The value of a key that has not vanished.
unfoldable pub live : ℕ → Redis → Str → Option Counter
unfolding expired
live now r key = elim (lookup key r) [
  | none ↦ none
  | some c ↦ if expired now c then none else some c
]

-- `INCR`: the counter after it.
unfoldable pub incr : ℕ → Redis → Str → Counter
unfolding live
incr now r key = elim (live now r key) [
  | none ↦ record { count = 1; expires = none }
  | some c ↦ record c { count = c.count + 1 }
]

-- How Redis answers one call: whether INCR and EXPIRE go through.
pub record Answers : Type 0 where
  pub incr_ok : Bool
  pub expire_ok : Bool

-- The counter after the whole call: EXPIRE is sent at the first request alone.
unfoldable pub after_expire : Answers → ℕ → RateLimitConfig → Counter → Counter
after_expire ans now config c =
    if c.count == 1 && ans.expire_ok then record c { expires = some (now + config.window) } else c

unfoldable pub redis_key : RateLimitConfig → Str → Str
redis_key config key = config.key_prefix ++ str ":" ++ key

-- `Allow`; `none` is an error.
unfoldable pub allow : Answers → ℕ → RateLimitConfig → Redis → Str → Redis × Option Bool
unfolding incr after_expire redis_key
allow ans now config r key =
    let c = incr now r (redis_key config key) in
    if ans.incr_ok
    then (
      insert (redis_key config key) (after_expire ans now config c) r,
      some (leb c.count config.requests),
    )
    else (r, none)

-- `getRateLimitConfig`
unfoldable pub get_rate_limit_config : Str → RateLimitConfig
get_rate_limit_config path =
    if starts_with (str "/api/v1/auth") path
    then auth_limit
    else if starts_with (str "/api/v1/ws") path
    then websocket_limit
    else if starts_with (str "/api/v1/agent") path
    then agent_limit
    else api_limit

-- `getIdentifier`: the user of the request, where there is one, or its address.
unfoldable pub get_identifier : Option Str → Str → Str
get_identifier none ip = str "ip:" ++ ip
get_identifier (some user) ip = if length user == 0 then str "ip:" ++ ip else str "user:" ++ user

pub record Request : Type 0 where
  pub path : Str
  pub user : Option Str
  pub ip : Str

-- What the middleware answers: the next handler, or 429.
pub data Response : Type 0 where
  next too_many unavailable : Response

-- `RateLimitMiddleware`; `none` is no limiter.
unfoldable pub rate_limit_middleware :
    Answers → ℕ → Option Redis → Request → Option Redis × Response
unfolding allow get_rate_limit_config get_identifier
rate_limit_middleware ans now none req = (none, next)
rate_limit_middleware ans now (some r) req =
    let a = allow ans now (get_rate_limit_config req.path) r (get_identifier req.user req.ip) in
    (some a.0, elim a.1 [ none ↦ unavailable | some ok ↦ if ok then next else too_many ])
