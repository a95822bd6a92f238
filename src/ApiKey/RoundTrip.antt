-- ===== src/ApiKey/RoundTrip.antt =====
-- A key that was generated is decoded to what it was generated from, and no other key is accepted.
use kerneleye.Base.{
  ℕ, ◌≡◌, ◌≢◌, refl, sym, ◌∙◌, false, Option, none, some, List, [], ◌∷◌, ◌++◌, append_assoc, All,
  ◌==◌, arith, drop, ap, inl, inr, Bool-cases, Option-cases,
}
use kerneleye.Base.Str.{Str, str, str_eq_iff, str_eq_refl, starts_with}
use kerneleye.ApiKey.{
  Keys, Decoded, identity, refused, payload, signature, generate_api_key, prepend, split_dots,
  check_parts, decode_api_key, Server, valid, is_revoked, check_server, validate_api_key,
}

-- What package encoding/base64 documents: decoding undoes encoding, and the URL alphabet has no dot.
pub record KeysLaws (k : Keys) : Type 0 where
  pub decode-encode : (s : Str) → k.decode (k.encode s) ≡ some s
  pub encode_undotted : (s : Str) → All (λ c. (c == 46) ≡ false) (k.encode s)

abbrev pub Undotted : Str → Type 0
Undotted s = All (λ c. (c == 46) ≡ false) s

split-Undotted : (s : Str) → Undotted s → split_dots s ≡ s ∷ []
unfolding split_dots prepend
split-Undotted [] u = refl
split-Undotted (c ∷ s) u = ground (arith, u.0, split-Undotted s u.1)

split-append : (s rest : Str) → Undotted s → split_dots (s ++ 46 ∷ rest) ≡ s ∷ split_dots rest
unfolding split_dots prepend
split-append [] rest u = refl
split-append (c ∷ s) rest u = ground (arith, u.0, split-append s rest u.1)

split_payload :
    (user server time sig : Str)
    → Undotted user
    → Undotted server
    → Undotted time
    → Undotted sig
    → split_dots (payload user server time ++ 46 ∷ sig) ≡ user ∷ server ∷ time ∷ sig ∷ []
unfolding payload
split_payload user server time sig u s t g = simp (
  append_assoc,
  split-append user (server ++ 46 ∷ (time ++ 46 ∷ sig)) u,
  split-append server (time ++ 46 ∷ sig) s,
  split-append time sig t,
  split-Undotted sig g,
)

-- Where a secret is set, a key generated for a user, a server and a time without dots is decoded to that
-- user and that server.
pub decode-generate :
    (k : Keys) (laws : KeysLaws k) (user server time key : Str)
    → Undotted user
    → Undotted server
    → Undotted time
    → generate_api_key k user server time ≡ some key
    → decode_api_key k key ≡ identity user server
unfolding generate_api_key decode_api_key starts_with signature check_parts
decode-generate k laws user server time key u s t made = ground (
  arith,
  made,
  laws.decode-encode text,
  split_payload user server time (signature k (payload user server time)) u s t
      (laws.encode_undotted (k.hmac k.secret (payload user server time))),
  str_eq_refl (signature k (payload user server time)),
)
  where
    text : Str
    text = payload user server time ++ 46 ∷ signature k (payload user server time)

unsplit : List Str → Str
unsplit [] = []
unsplit (p ∷ []) = p
unsplit (p ∷ q ∷ ps) = p ++ 46 ∷ unsplit (q ∷ ps)

unsplit-prepend : (c : ℕ) (ps : List Str) → ps ≢ [] → unsplit (prepend c ps) ≡ c ∷ unsplit ps
unfolding unsplit prepend
unsplit-prepend c [] h = absurd (h refl)
unsplit-prepend c (p ∷ []) h = refl
unsplit-prepend c (p ∷ q ∷ ps) h = refl

split_nonempty : (s : Str) → split_dots s ≢ []
unfolding split_dots prepend
split_nonempty [] = λ e. cc
split_nonempty (c ∷ s) = ground (arith, split_nonempty s)

unsplit-split : (s : Str) → unsplit (split_dots s) ≡ s
unfolding split_dots unsplit
unsplit-split [] = refl
unsplit-split (c ∷ s) = elim (Bool-cases (c == 46)) [
  | inl e ↦ ground (arith, e, unsplit-split s, split_nonempty s)
  | inr e ↦ ground (arith, e, unsplit-split s, split_nonempty s, unsplit-prepend c (split_dots s))
]

check_four :
    (k : Keys) (a b c sig user server : Str)
    → check_parts k (a ∷ b ∷ c ∷ sig ∷ []) ≡ identity user server
    → (a ≡ user) × (b ≡ server) × (sig ≡ signature k (payload a b c))
unfolding check_parts
check_four k a b c sig user server h =
    ground (arith, h, str_eq_iff sig (signature k (payload a b c)))

payload-append :
    (a b c rest : Str) → payload a b c ++ 46 ∷ rest ≡ a ++ 46 ∷ (b ++ 46 ∷ (c ++ 46 ∷ rest))
unfolding payload
payload-append a b c rest = simp append_assoc

check_parts-signed :
    (k : Keys) (parts : List Str) (user server : Str)
    → check_parts k parts ≡ identity user server
    → (time : Str) × (unsplit parts
        ≡ payload user server time ++ 46 ∷ signature k (payload user server time))
unfolding check_parts unsplit payload
check_parts-signed k [] user server h = ground (arith, h)
check_parts-signed k (a ∷ []) user server h = ground (arith, h)
check_parts-signed k (a ∷ b ∷ []) user server h = ground (arith, h)
check_parts-signed k (a ∷ b ∷ c ∷ []) user server h = ground (arith, h)
check_parts-signed k (a ∷ b ∷ c ∷ sig ∷ []) user server h =
    let q = check_four k a b c sig user server h in
    (c, sym (payload-append a b c sig) ∙ ground (arith, q.0, q.1, q.2))
check_parts-signed k (a ∷ b ∷ c ∷ sig ∷ e ∷ rest) user server h = ground (arith, h)

-- A key is decoded to a user and a server only if its text is the signed payload of these and some time.
pub decode_api_key-signed :
    (k : Keys) (key user server : Str)
    → decode_api_key k key ≡ identity user server
    → (time : Str) × (k.decode (drop 3 key)
        ≡ some (payload user server time ++ 46 ∷ signature k (payload user server time)))
unfolding decode_api_key
decode_api_key-signed k key user server h = elim (Option-cases (k.decode (drop 3 key))) [
  | inl e ↦ absurd (ground (arith, e, h))
  | inr (text, e) ↦
      let q = check_parts-signed k (split_dots text) user server (ground (arith, e, h)) in
      (q.0, e ∙ ap some (sym (unsplit-split text) ∙ q.1))
]

check_server-valid :
    (user server : Str) (row s : Server)
    → check_server user server row ≡ valid s
    → (row ≡ s) × (user ≡ s.user_id) × (server ≡ s.id) × (is_revoked s ≡ false)
unfolding check_server
check_server-valid user server row s h =
    ground (arith, h, str_eq_iff user row.user_id, str_eq_iff server row.id)

module _ (k : Keys) (find : Str → Option Server) (key : Str) (s : Server) where
  Validated : Type 0
  Validated =
      (find key ≡ some s)
      × (decode_api_key k key ≡ identity s.user_id s.id)
      × (is_revoked s ≡ false)

  validated :
      (d : Decoded) (o : Option Server)
      → decode_api_key k key ≡ d
      → find key ≡ o
      → validate_api_key k find key ≡ valid s
      → Validated
  unfolding validate_api_key Validated
  validated (refused e) o ed eo h = absurd (ground (arith, ed, eo, h))
  validated (identity user server) none ed eo h = absurd (ground (arith, ed, eo, h))
  validated (identity user server) (some row) ed eo h =
      ground (arith, ed, eo, h, check_server-valid user server row s)

  -- Validation gives a server's row only if the key is decoded to that row's user and id, and the row is
  -- the one that stands under the key and is not revoked: its status is not deleted, rejected or suspended.
  pub validate_api_key_sound :
      validate_api_key k find key ≡ valid s
      → (find key ≡ some s)
        × (decode_api_key k key ≡ identity s.user_id s.id)
        × (is_revoked s ≡ false)
        × (s.status ≢ str "deleted")
        × (s.status ≢ str "rejected")
        × (s.status ≢ str "suspended")
  unfolding Validated is_revoked
  validate_api_key_sound h =
      let v = validated (decode_api_key k key) (find key) refl refl h in
      ground (
        arith,
        v,
        str_eq_iff s.status (str "deleted"),
        str_eq_iff s.status (str "rejected"),
        str_eq_iff s.status (str "suspended"),
      )
