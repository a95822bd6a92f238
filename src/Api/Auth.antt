-- ===== src/Api/Auth.antt =====
-- backend/internal/api/auth.go: `AuthMiddleware`, by which an agent's key or the owner's token opens the API.
-- The JWT library is a parameter, and so are the trimming and lower-casing of package strings.
use kerneleye.Base.{
  ◌≡◌, ◌≢◌, refl, Bool, true, false, not, ◌||◌, Option, none, some, List, [], ◌∷◌, length, ◌==◌,
  if◌then◌else◌, arith, Bool-cases, Option-cases, inl, inr,
}
use kerneleye.Base.Str.{Str, str, str_eq, str_eq_iff, starts_with}
use kerneleye.ApiKey.{Keys, Server, Decoded, identity, refused, decode_api_key}

-- `Claims`
pub record Claims : Type 0 where
  pub user_id : Str
  pub email : Str

-- The environment of the middleware. `normal` is ToLower of TrimSpace; `owner` is AUTH_OWNER_EMAIL;
-- `validate_jwt` is `ValidateJWT`, `none` an error.
pub record AuthEnv : Type 0 where
  pub keys : Keys
  pub find : Str → Option Server
  pub normal : Str → Str
  pub owner : Str
  pub validate_jwt : Str → Option Claims

unfoldable pub is_owner_email : AuthEnv → Str → Bool
is_owner_email e email =
    if length (e.normal e.owner) == 0 then false else str_eq (e.normal email) (e.normal e.owner)

unfoldable pub owner_not_configured : AuthEnv → Bool
owner_not_configured e = length (e.normal e.owner) == 0

pub data AuthType : Type 0 where
  agent dashboard : AuthType

-- What the request goes on with, or how it is refused.
pub data Auth : Type 0 where
  passes : AuthType → Str → Auth
  unauthorized : Auth
  forbidden : Auth

-- The checks of the row under the key.
unfoldable pub agent_row : Str → Str → Server → Auth
agent_row user server s =
    if not (str_eq user s.user_id) || not (str_eq server s.id)
    then unauthorized
    else if str_eq s.status (str "deleted") || str_eq s.status (str "rejected")
    then forbidden
    else passes agent s.user_id

unfoldable pub agent_auth : AuthEnv → Str → Auth
unfolding agent_row
agent_auth e key =
    if not (starts_with (str "ke_") key) then unauthorized else elim (decode_api_key e.keys key) [
      | refused err ↦ unauthorized
      | identity user server ↦ elim (e.find key) [
        | none ↦ unauthorized
        | some s ↦ agent_row user server s
      ]
    ]

-- The bearer token of a request: that of the header, split at its spaces, or that of the query.
unfoldable pub bearer_token : List Str → Str → Option Str
bearer_token [] query = some query
bearer_token (scheme ∷ token ∷ []) query = if str_eq scheme (str "Bearer") then some token else none
bearer_token _ query = none

unfoldable pub dashboard_auth : AuthEnv → Str → Auth
unfolding is_owner_email
dashboard_auth e token = if length token == 0 then unauthorized else elim (e.validate_jwt token) [
  | none ↦ unauthorized
  | some claims ↦
      if is_owner_email e claims.email then passes dashboard claims.user_id else forbidden
]

-- A request: the header X-API-Key, the parts of Authorization (none if it is not sent), and the token of
-- the query.
pub record Headers : Type 0 where
  pub api_key : Str
  pub authorization : List Str
  pub query_token : Str

-- `AuthMiddleware`
unfoldable pub auth_middleware : AuthEnv → Headers → Auth
unfolding agent_auth bearer_token dashboard_auth
auth_middleware e h =
    if length h.api_key == 0
    then elim (bearer_token h.authorization h.query_token) [
      | none ↦ unauthorized
      | some token ↦ dashboard_auth e token
    ]
    else agent_auth e h.api_key

-- `RequireDashboardAuth`, behind the middleware.
unfoldable pub require_dashboard_auth : Auth → Auth
require_dashboard_auth (passes dashboard user) = passes dashboard user
require_dashboard_auth (passes agent user) = forbidden
require_dashboard_auth unauthorized = unauthorized
require_dashboard_auth forbidden = forbidden

required-dashboard :
    (a : Auth) (t : AuthType) (user : Str)
    → require_dashboard_auth a ≡ passes t user
    → t ≡ dashboard
unfolding require_dashboard_auth
required-dashboard (passes dashboard u) t user h = ground (arith, h)
required-dashboard (passes agent u) t user h = cc
required-dashboard unauthorized t user h = cc
required-dashboard forbidden t user h = cc

-- The e-mail address is the owner's, and there is an owner.
abbrev pub IsOwner : AuthEnv → Str → Type 0
IsOwner e email = (e.normal e.owner ≢ []) × (e.normal email ≡ e.normal e.owner)

is_owner_email-IsOwner :
    (e : AuthEnv) (email : Str) → is_owner_email e email ≡ true → IsOwner e email
unfolding is_owner_email
is_owner_email-IsOwner e email h =
    (ground (arith, h), ground (arith, h, str_eq_iff (e.normal email) (e.normal e.owner)))

dashboard-IsOwner :
    (e : AuthEnv) (token user : Str)
    → dashboard_auth e token ≡ passes dashboard user
    → (token ≢ [])
      × ((c : Claims) × (e.validate_jwt token ≡ some c) × (c.user_id ≡ user) × IsOwner e c.email)
unfolding dashboard_auth
dashboard-IsOwner e token user h = elim (Option-cases (e.validate_jwt token)) [
  | inl bad ↦ absurd (ground (arith, bad, h))
  | inr (c, good) ↦ (
    ground (arith, h),
    (c, good, ground (arith, good, h), is_owner_email-IsOwner e c.email (ground (arith, good, h))),
  )
]

agent-ne-dashboard : (e : AuthEnv) (key user : Str) → agent_auth e key ≢ passes dashboard user
unfolding agent_auth agent_row
agent-ne-dashboard e key user = checked (decode_api_key e.keys key) (e.find key) refl refl
  where
    checked :
        (d : Decoded) (o : Option Server)
        → decode_api_key e.keys key ≡ d
        → e.find key ≡ o
        → agent_auth e key ≢ passes dashboard user
    checked (refused err) o ed eo h = ground (arith, ed, h)
    checked (identity u s) none ed eo h = ground (arith, ed, eo, h)
    checked (identity u s) (some row) ed eo h = ground (arith, ed, eo, h)

required :
    (a : Auth) (t : AuthType) (user : Str)
    → require_dashboard_auth a ≡ passes t user
    → a ≡ passes dashboard user
unfolding require_dashboard_auth
required (passes dashboard u) t user h = ground (arith, h)
required (passes agent u) t user h = cc
required unauthorized t user h = cc
required forbidden t user h = cc

-- A request that passes `RequireDashboardAuth` behind `AuthMiddleware`, as the routes that write the whitelist
-- demand, carries no agent's key, but a token, in its header or else in its query, that is valid for the
-- user it goes on as and for an e-mail address that is the owner's; an owner is configured.
pub require_dashboard_auth-IsOwner :
    (e : AuthEnv) (h : Headers) (t : AuthType) (user : Str)
    → require_dashboard_auth (auth_middleware e h) ≡ passes t user
    → (t ≡ dashboard)
      × (h.api_key ≡ [])
      × ((token : Str) × (bearer_token h.authorization h.query_token ≡ some token)
          × (token ≢ [])
          × ((c : Claims) × (e.validate_jwt token ≡ some c)
              × (c.user_id ≡ user)
              × IsOwner e c.email))
unfolding auth_middleware
require_dashboard_auth-IsOwner e h t user p = elim (Bool-cases (length h.api_key == 0)) [
  | inl keyless ↦ elim (Option-cases (bearer_token h.authorization h.query_token)) [
    | inl bad ↦ absurd (ground (arith, keyless, bad, q))
    | inr (token, e') ↦
        let r = dashboard-IsOwner e token user (ground (arith, keyless, e', q)) in
        (
          required-dashboard (auth_middleware e h) t user p,
          ground (arith, keyless),
          (token, e', r.0, r.1),
        )
  ]
  | inr keyed ↦ absurd (agent-ne-dashboard e h.api_key user (ground (arith, keyed, q)))
]
  where
    q : auth_middleware e h ≡ passes dashboard user
    q = required (auth_middleware e h) t user p
