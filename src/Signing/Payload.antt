-- ===== src/Signing/Payload.antt =====
-- The canonical payload of a command determines every field that was signed.
use kerneleye.Base.{
  ◌<◌, ◌%◌, ◌^◌, ◌≡◌, refl, sym, ◌∙◌, [], ◌∷◌, ◌++◌, arith, length, append-nil, append_assoc,
}
use kerneleye.Base.Str.{Str}
use kerneleye.Base.Int.{ℤ}
use kerneleye.Base.Word.{
  u64, be32, be64, InI32, InI64, u32-lt, u64-lt, u32-injective, u64-injective, be32-append,
  be64-append,
}
use kerneleye.Signing.{build_canonical_payload, sized}

-- Two texts of one length in front of a rest: both can be read back.
split_append : (s t xs ys : Str) → length s ≡ length t → s ++ xs ≡ t ++ ys → (s ≡ t) × (xs ≡ ys)
split_append [] [] xs ys h e = (refl, e)
split_append [] (y ∷ t) xs ys h e = absurd (omega arith)
split_append (x ∷ s) [] xs ys h e = absurd (omega arith)
split_append (x ∷ s) (y ∷ t) xs ys h e =
    let rest = split_append s t xs ys (omega arith) (cc) in (cc (rest.0), rest.1)

-- So can a text behind its length.
sized-append :
    (s t xs ys : Str)
    → length s < 2 ^ 32
    → length t < 2 ^ 32
    → sized s ++ xs ≡ sized t ++ ys
    → (s ≡ t) × (xs ≡ ys)
sized-append s t xs ys h k e = split_append s t xs ys (omega (arith, front.0)) front.1
  where
    front : (length s % 2 ^ 32 ≡ length t % 2 ^ 32) × (s ++ xs ≡ t ++ ys)
    front = be32-append _ _ _ _ (omega arith) (omega arith) (
        sym (append_assoc (be32 (length s % 2 ^ 32)) s xs)
        ∙ e
        ∙ append_assoc (be32 (length t % 2 ^ 32)) t ys)

-- Two commands with the same canonical payload agree in every field, if their codes are int32, their
-- duration and time int64, and their texts shorter than 2 ^ 32 bytes.
pub build_canonical_payload-injective :
    (a b : ℤ) (ip ip' : Str) (d d' : ℤ) (r r' id id' : Str) (t t' i i' : ℤ)
    → InI32 a × InI32 b
    → length ip < 2 ^ 32
    → length ip' < 2 ^ 32
    → InI64 d × InI64 d'
    → length r < 2 ^ 32
    → length r' < 2 ^ 32
    → length id < 2 ^ 32
    → length id' < 2 ^ 32
    → InI32 t × InI32 t'
    → InI64 i × InI64 i'
    → build_canonical_payload a ip d r id t i ≡ build_canonical_payload b ip' d' r' id' t' i'
    → (a ≡ b) × (ip ≡ ip') × (d ≡ d') × (r ≡ r') × (id ≡ id') × (t ≡ t') × (i ≡ i')
unfolding build_canonical_payload
build_canonical_payload-injective a b ip ip' d d' r r' id id' t t' i i' ha hip hip' hd hr hr' hid
      hid' ht hi e =
    let (ea, e₁) = be32-append _ _ _ _ (u32-lt a) (u32-lt b) e in
    let (eip, e₂) = sized-append ip ip' _ _ hip hip' e₁ in
    let (ed, e₃) = be64-append _ _ _ _ (u64-lt d) (u64-lt d') e₂ in
    let (er, e₄) = sized-append r r' _ _ hr hr' e₃ in
    let (eid, e₅) = sized-append id id' _ _ hid hid' e₄ in
    let (et, e₆) = be32-append _ _ _ _ (u32-lt t) (u32-lt t') e₅ in
    let (ei, _) =
      be64-append _ _ [] [] (u64-lt i) (u64-lt i')
        (append-nil (be64 (u64 i)) ∙ e₆ ∙ sym (append-nil (be64 (u64 i')))) in
    (
      u32-injective a b ha.0 ha.1 ea,
      eip,
      u64-injective d d' hd.0 hd.1 ed,
      er,
      eid,
      u32-injective t t' ht.0 ht.1 et,
      u64-injective i i' hi.0 hi.1 ei,
    )
