-- ===== src/Api.antt =====
-- backend/internal/api/handlers.go: what the handlers share, pages of rows and the escaping of searches. Who
-- may call them (auth.go) is the child Auth, and what they do to servers and the whitelist the child Owned.
pub mod Auth
pub mod Owned
use kerneleye.Base.{
  ℕ, zero, suc, ◌+◌, ◌-◌, ◌*◌, ◌/◌, ◌%◌, ◌≤◌, ◌<◌, Bool, true, not, ◌&&◌, ◌||◌, Option, none, some,
  List, [], ◌∷◌, ◌++◌, length, ltb, leb, ◌==◌, if◌then◌else◌, arith, ◌≢◌,
}
use kerneleye.Base.Str.{Str, str, str_eq, str_eq_iff, str_eq_sound}
use kerneleye.Base.Int.{ℤ, pos, negsuc, ltb_ℤ, ◌-ℤ◌, ◌*ℤ◌, ◌≤ℤ◌}

-- The size of a page from the query: 1 to 100.
unfoldable pub page_size : ℤ → ℤ
page_size n = if ltb_ℤ (pos 100) n then pos 100 else if ltb_ℤ n (pos 1) then pos 1 else n

-- `(page - 1) * pageSize`; the page is not checked.
unfoldable pub page_offset : ℤ → ℤ → ℤ
unfolding page_size
page_offset page size = (page -ℤ pos 1) *ℤ page_size size

-- `math.Ceil` of the quotient.
unfoldable pub total_pages : ℕ → ℕ → ℕ
total_pages count size = if count % size == 0 then count / size else count / size + 1

-- `sanitizeLikePattern`: a backslash before each `\`, `%` and `_`.
abbrev pub is_meta : ℕ → Bool
is_meta c = c == 92 || (c == 37 || c == 95)

unfoldable pub sanitize_like_pattern : Str → Str
sanitize_like_pattern [] = []
sanitize_like_pattern (c ∷ s) =
    let rest = sanitize_like_pattern s in if is_meta c then 92 ∷ c ∷ rest else c ∷ rest

-- What a LIKE pattern without wildcards stands for: the text with its escapes undone; `none` if a
-- character is a wildcard.
unfoldable pub literal : Str → Option Str
literal [] = some []
literal (c ∷ []) = if is_meta c then none else some (c ∷ [])
literal (c ∷ d ∷ s) =
    let escaped = literal s in
    let plain = literal (d ∷ s) in
    if c == 92
    then elim escaped [ none ↦ none | some t ↦ some (d ∷ t) ]
    else if is_meta c
    then none
    else elim plain [ none ↦ none | some t ↦ some (c ∷ t) ]

-- The pages of a valid size cover all rows, and the last one is not empty.
pub total_pages_bounds :
    (count size : ℕ)
    → 0 < size
    → 0 < count
    → (count ≤ total_pages count size * size) × ((total_pages count size - 1) * size < count)
unfolding total_pages
total_pages_bounds count size p q = grind arith
