-- ===== src/Remediation/Persist.antt =====
-- agent/remediation/ipset_state.go: `Save` and what `ipset list` shows (`parseMembersSection`), line by line.
use kerneleye.Base.{
  ℕ, ◌≡◌, refl, Bool, true, false, not, ◌||◌, List, [], ◌∷◌, ◌++◌, All, map, length, ltb, ◌==◌,
  if◌then◌else◌, arith,
}
use kerneleye.Base.Str.{Str, str, str_eq, str_eq_refl, starts_with}

-- The lines that `Save` keeps of `ipset save`; `inside` is `inOurSet`.
unfoldable pub filter_lines : Bool → List Str → List Str
filter_lines inside [] = []
filter_lines inside (line ∷ lines) =
    if starts_with (str "create kerneleye_") line
    then line ∷ filter_lines true lines
    else if starts_with (str "create ") line
    then filter_lines false lines
    else if inside
    then line ∷ filter_lines inside lines
    else filter_lines inside lines

unfoldable pub save_lines : List Str → List Str
unfolding filter_lines
save_lines lines = filter_lines false lines

-- ASCII white space, at which `strings.Fields` splits.
abbrev pub is_space : ℕ → Bool
is_space c = c == 32 || (c == 9 || (c == 10 || (c == 11 || (c == 12 || c == 13))))

-- `fields[0]` of a line after its leading white space.
unfoldable pub word : Str → Str
word [] = []
word (c ∷ s) = let rest = c ∷ word s in if is_space c then [] else rest

unfoldable pub first_field : Str → Str
unfolding word
first_field [] = []
first_field (c ∷ s) = let rest = first_field s in if is_space c then rest else word (c ∷ s)

-- `parseMembersSection` on the lines of the output.
unfoldable pub parse_members : Bool → List Str → List Str
unfolding first_field
parse_members inside [] = []
parse_members inside (line ∷ lines) =
    if str_eq line (str "Members:")
    then parse_members true lines
    else if not inside
    then parse_members inside lines
    else if length (first_field line) == 0
    then parse_members inside lines
    else first_field line ∷ parse_members inside lines

-- A dump whose sets all have names that do not start with `kerneleye_`, such as those of the remediator's
-- own address sets: every line of it creates such a set, or adds to one.
abbrev pub IsForeign : Str → Type 0
IsForeign line = starts_with (str "create kerneleye_") line ≡ false

-- Of a dump in which no set is named `kerneleye_…` nothing is kept: the remediator's own sets, which are
-- named `kernel_eye_…`, are never saved.
pub save_lines-foreign : (lines : List Str) → All IsForeign lines → save_lines lines ≡ []
unfolding save_lines filter_lines
save_lines-foreign [] f = refl
save_lines-foreign (line ∷ lines) f = ground (arith, f.0, save_lines-foreign lines f.1)

-- A member line: an address of which no byte is white space, and what follows a space.
abbrev pub member_line : Str → Str → Str
member_line ip rest = ip ++ 32 ∷ rest

-- An address that `ipset list` can show.
pub record IsAddress (ip : Str) : Type 0 where
  pub nonempty : ltb 0 (length ip) ≡ true
  pub solid : All (λ c. is_space c ≡ false) ip

word-member : (ip rest : Str) → All (λ c. is_space c ≡ false) ip → word (member_line ip rest) ≡ ip
unfolding word
word-member [] rest a = refl
word-member (c ∷ ip) rest a = rw (a.0, word-member ip rest a.1) refl

spaced-ne :
    (ip rest t : Str) → All (λ c. is_space c ≡ false) t → str_eq (member_line ip rest) t ≡ false
unfolding str_eq
spaced-ne [] rest [] a = refl
spaced-ne [] rest (d ∷ t) a = ground (arith, a.0)
spaced-ne (c ∷ ip) rest [] a = refl
spaced-ne (c ∷ ip) rest (d ∷ t) a = ground (arith, spaced-ne ip rest t a.1)

first_field-member : (ip rest : Str) → IsAddress ip → first_field (member_line ip rest) ≡ ip
unfolding first_field
first_field-member [] rest a = absurd (ground (arith, a.nonempty))
first_field-member (c ∷ ip) rest a = ground (arith, a.solid.0, word-member (c ∷ ip) rest a.solid)

-- The members of a set with what follows each address, such as its time-out.
abbrev pub Members : List (Str × Str) → Type 0
Members = All (λ m. IsAddress m.0)

parse_members-inside :
    (members : List (Str × Str))
    → Members members
    → parse_members true (map (λ m. member_line m.0 m.1) members) ≡ map (λ m. m.0) members
unfolding parse_members
parse_members-inside [] a = refl
parse_members-inside ((ip, rest) ∷ members) a = ground (
  arith,
  spaced-ne ip rest (str "Members:")
      (refl, (refl, (refl, (refl, (refl, (refl, (refl, (refl, tt)))))))),
  first_field-member ip rest a.0,
  a.0.nonempty,
  parse_members-inside members a.1,
)

-- What `ipset list` prints of a set, some lines of heading, the line `Members:` and a line for each
-- address, is parsed to these addresses, in order.
pub parse_members-listing :
    (heading : List Str) (members : List (Str × Str))
    → All (λ line. str_eq line (str "Members:") ≡ false) heading
    → Members members
    → parse_members false (heading ++ str "Members:" ∷ map (λ m. member_line m.0 m.1) members)
      ≡ map (λ m. m.0) members
unfolding parse_members
parse_members-listing [] members h a =
    ground (arith, str_eq_refl (str "Members:"), parse_members-inside members a)
parse_members-listing (line ∷ heading) members h a =
    ground (arith, h.0, parse_members-listing heading members h.1 a)
