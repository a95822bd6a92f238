-- ===== src/ApiKey.antt =====
-- backend/internal/api/apikey.go: keys that carry a user, a server and a time under an HMAC. HMAC-SHA256 and
-- base64 are parameters, and so is the database's lookup.
pub mod RoundTrip
use kerneleye.Base.{
  ℕ, Bool, true, false, not, ◌&&◌, ◌||◌, Option, none, some, List, [], ◌∷◌, ◌++◌, length, ltb, ◌==◌,
  if◌then◌else◌, drop,
}
use kerneleye.Base.Str.{Str, str, str_eq, starts_with}

-- `secret` is API_KEY_SECRET, empty if it is not set; `encode` and `decode` are RawURLEncoding.
pub record Keys : Type 0 where
  pub secret : Str
  pub hmac : Str → Str → Str
  pub encode : Str → Str
  pub decode : Str → Option Str

pub data KeyError : Type 0 where
  bad_format bad_encoding bad_structure no_secret bad_signature : KeyError

pub data Decoded : Type 0 where
  identity : Str → Str → Decoded
  refused : KeyError → Decoded

-- The character `.`
abbrev pub dot : ℕ
dot = 46

unfoldable pub payload : Str → Str → Str → Str
payload user server time = user ++ dot ∷ (server ++ dot ∷ time)

unfoldable pub signature : Keys → Str → Str
signature k text = k.encode (k.hmac k.secret text)

-- `GenerateAPIKey` at the time `time`; it ends the process without a secret.
unfoldable pub generate_api_key : Keys → Str → Str → Str → Option Str
unfolding payload signature
generate_api_key k user server time =
    if length k.secret == 0
    then none
    else some (
        str "ke_"
        ++ k.encode (payload user server time ++ dot ∷ signature k (payload user server time)))

-- One more character before the first part.
unfoldable pub prepend : ℕ → List Str → List Str
prepend c [] = (c ∷ []) ∷ []
prepend c (p ∷ ps) = (c ∷ p) ∷ ps

-- `strings.Split(s, ".")`
unfoldable pub split_dots : Str → List Str
unfolding prepend
split_dots [] = [] ∷ []
split_dots (c ∷ s) = let rest = split_dots s in if c == dot then [] ∷ rest else prepend c rest

unfoldable pub check_parts : Keys → List Str → Decoded
unfolding payload signature
check_parts k (user ∷ server ∷ time ∷ sig ∷ []) =
    if length k.secret == 0
    then refused no_secret
    else if str_eq sig (signature k (payload user server time))
    then identity user server
    else refused bad_signature
check_parts k _ = refused bad_structure

unfoldable pub decode_api_key : Keys → Str → Decoded
unfolding check_parts split_dots
decode_api_key k key =
    if not (starts_with (str "ke_") key) then refused bad_format else elim (k.decode (drop 3 key)) [
      | none ↦ refused bad_encoding
      | some text ↦ check_parts k (split_dots text)
    ]

-- What the handlers read of a server's row.
pub record Server : Type 0 where
  pub id : Str
  pub user_id : Str
  pub status : Str
  pub hostname : Str
  pub ip_address : Option Str
  pub client_token : Str

pub data Refusal : Type 0 where
  format too_short signature_invalid not_found mismatch revoked : Refusal

pub data Checked : Type 0 where
  valid : Server → Checked
  invalid : Refusal → Checked

unfoldable pub is_revoked : Server → Bool
is_revoked s =
    str_eq s.status (str "deleted")
    || str_eq s.status (str "rejected")
    || str_eq s.status (str "suspended")

-- The checks of the row that was found.
unfoldable pub check_server : Str → Str → Server → Checked
unfolding is_revoked
check_server user server s =
    if not (str_eq user s.user_id) || not (str_eq server s.id)
    then invalid mismatch
    else if is_revoked s
    then invalid revoked
    else valid s

-- `ValidateAPIKey`; `find` is `GetServerByAPIKey`.
unfoldable pub validate_api_key : Keys → (Str → Option Server) → Str → Checked
unfolding decode_api_key check_server
validate_api_key k find key =
    if not (starts_with (str "ke_") key)
    then invalid format
    else if ltb (length key) 20
    then invalid too_short
    else elim (decode_api_key k key) [
      | refused e ↦ invalid signature_invalid
      | identity user server ↦ elim (find key) [
        | none ↦ invalid not_found
        | some s ↦ check_server user server s
      ]
    ]
