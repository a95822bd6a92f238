-- ===== src/Api/Owned.antt =====
-- backend/internal/api/handlers.go and whitelist.go: what an owner does to a server and to the whitelist.
use kerneleye.Base.{
  ◌≡◌, ◌≢◌, refl, Bool, not, ◌||◌, Option, none, some, List, [], ◌∷◌, length, ◌==◌, if◌then◌else◌,
  arith, Option-cases, inl, inr, ◌⊎◌,
}
use kerneleye.Base.Str.{Str, str, str_eq, str_eq_iff}
use kerneleye.ApiKey.{Server}

pub data Http : Type 0 where
  ok bad_request unauthorized forbidden not_found internal_error : Http

pub data Deed : Type 0 where
  set_status : Str → Str → Deed
  delete_server : Str → Deed
  add_whitelist : Str → Str → Deed
  remove_whitelist : Str → Str → Deed
  command : Str → Str → Str → Str → Deed

pub record Handled : Type 0 where
  pub code : Http
  pub deeds : List Deed

abbrev pub refuse : Http → Handled
refuse code = record { code = code; deeds = [] }

-- The row of a server, if it is there and belongs to the user.
unfoldable pub owned : (Str → Option Server) → Str → Str → Option Http
owned find user id = elim (find id) [
  | none ↦ some not_found
  | some s ↦ if str_eq s.user_id user then none else some forbidden
]

unfoldable pub is_settable : Str → Bool
is_settable status =
    str_eq status (str "active") || str_eq status (str "rejected") || str_eq status (str "inactive")

-- `HandleUpdateServerStatus`; `body` is the parsed request, `updates` whether the database does.
unfoldable pub handle_update_server_status :
    (Str → Option Server) → Bool → Str → Str → Option Str → Handled
unfolding owned is_settable
handle_update_server_status find updates user id none = refuse bad_request
handle_update_server_status find updates user id (some status) =
    if not (is_settable status) then refuse bad_request else elim (owned find user id) [
      | some code ↦ refuse code
      | none ↦
          if updates
          then record { code = ok; deeds = set_status id status ∷ [] }
          else refuse internal_error
    ]

-- `HandleDeleteServer`
unfoldable pub handle_delete_server : (Str → Option Server) → Bool → Option Str → Str → Handled
unfolding owned
handle_delete_server find deletes none id = refuse unauthorized
handle_delete_server find deletes (some user) id = elim (owned find user id) [
  | some code ↦ refuse code
  | none ↦
      if deletes then record { code = ok; deeds = delete_server id ∷ [] } else refuse internal_error
]

-- `HandleGetServer`
unfoldable pub handle_get_server : (Str → Option Server) → Str → Str → Http
unfolding owned
handle_get_server find user id = elim (owned find user id) [ some code ↦ code | none ↦ ok ]

-- The two commands for each of the user's agents.
unfoldable pub fan_out : Str → Str → List Str → List Deed
fan_out ip reason [] = []
fan_out ip reason (agent ∷ agents) =
    let rest = fan_out ip reason agents in
    if length agent == 0
    then rest
    else command agent ip reason (str "blocklist")
      ∷ command agent ip reason (str "ratelimit")
      ∷ rest

-- The database and package netip for the whitelist; `agents` are those of the user, none if the list
-- cannot be read or there is no hub.
pub record Whitelist : Type 0 where
  pub parse_addr : Str → Option Str
  pub changes : Bool
  pub agents : List Str

-- `HandleAddToWhitelist`, from the address of the request on; `none` is no user or no body.
unfoldable pub handle_add_to_whitelist : Whitelist → Option Str → Option Str → Handled
unfolding fan_out
handle_add_to_whitelist w none body = refuse unauthorized
handle_add_to_whitelist w (some user) none = refuse bad_request
handle_add_to_whitelist w (some user) (some text) =
    if length text == 0 then refuse bad_request else elim (w.parse_addr text) [
      | none ↦ refuse bad_request
      | some ip ↦
          if w.changes
          then record {
            code = ok;
            deeds = add_whitelist user ip ∷ fan_out text (str "whitelisted") w.agents;
          }
          else refuse internal_error
    ]

-- `HandleRemoveFromWhitelist`
unfoldable pub handle_remove_from_whitelist : Whitelist → Option Str → Str → Handled
unfolding fan_out
handle_remove_from_whitelist w none text = refuse unauthorized
handle_remove_from_whitelist w (some user) text =
    if length text == 0 then refuse bad_request else elim (w.parse_addr text) [
      | none ↦ refuse bad_request
      | some ip ↦
          if w.changes
          then record {
            code = ok;
            deeds = remove_whitelist user ip ∷ fan_out text (str "whitelist_removed") w.agents;
          }
          else refuse internal_error
    ]

owned-found :
    (find : Str → Option Server) (user id : Str)
    → owned find user id ≡ none
    → (s : Server) × (find id ≡ some s) × (s.user_id ≡ user)
unfolding owned
owned-found find user id h = elim (Option-cases (find id)) [
  | inl e ↦ absurd (ground (arith, e, h))
  | inr (s, e) ↦ (s, e, ground (arith, e, h, str_eq_iff s.user_id user))
]

update-refused :
    (find : Str → Option Server) (updates : Bool) (user id : Str) (status : Option Str)
    (code : Http)
    → owned find user id ≡ some code
    → (handle_update_server_status find updates user id status).deeds ≡ []
unfolding handle_update_server_status
update-refused find updates user id none code e = refl
update-refused find updates user id (some status) code e = ground (arith, e)

delete-refused :
    (find : Str → Option Server) (deletes : Bool) (user id : Str) (code : Http)
    → owned find user id ≡ some code
    → (handle_delete_server find deletes (some user) id).deeds ≡ []
unfolding handle_delete_server
delete-refused find deletes user id code e = ground (arith, e)

-- Only the owner of a server changes its status or deletes it.
pub owned-only :
    (find : Str → Option Server) (updates deletes : Bool) (user id : Str) (status : Option Str)
    → ((handle_update_server_status find updates user id status).deeds ≢ [])
      ⊎ ((handle_delete_server find deletes (some user) id).deeds ≢ [])
    → (s : Server) × (find id ≡ some s) × (s.user_id ≡ user)
owned-only find updates deletes user id status done = elim (Option-cases (owned find user id)) [
  | inl e ↦ owned-found find user id e
  | inr (code, e) ↦ absurd (elim done [
    | inl d ↦ d (update-refused find updates user id status code e)
    | inr d ↦ d (delete-refused find deletes user id code e)
  ])
]
