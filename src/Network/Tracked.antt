-- ===== src/Network/Tracked.antt =====
-- The aggregator's addresses are ones that the remediator acts on.
use kerneleye.Base.{
  ℕ, ◌≡◌, ◌⊎◌, inl, inr, Option-cases, Bool, true, false, ◌&&◌, ◌||◌, none, some, [], ◌∷◌, length,
  ◌==◌, leb, arith,
}
use kerneleye.Base.Str.{Str}
use kerneleye.Remediation.{Net, is_external_ip, is_external_v6}
use kerneleye.Network.{is_private_ip, is_private_bytes, is_private_v4, is_unique_local}

-- What package net documents: IsPrivate of four bytes is RFC 1918, IsMulticast of sixteen that are no IPv4
-- address is ff00::/8, To4 and To16 keep four and sixteen bytes.
pub record NetLaws (n : Net) (is_multicast : Str → Bool) : Type 0 where
  pub private_v4 :
      (a b c d : ℕ)
      → n.is_private (a ∷ b ∷ c ∷ d ∷ [])
        ≡ (a == 10 || (a == 172 && leb 16 b && leb b 31) || (a == 192 && b == 168))
  pub to4-four : (ip : Str) → length ip ≡ 4 → n.to4 ip ≡ some ip
  pub four : (ip ip4 : Str) → n.to4 ip ≡ some ip4 → length ip4 ≡ 4
  pub multicast_v6 :
      (b : ℕ) (bs : Str)
      → length (b ∷ bs) ≡ 16
      → n.to4 (b ∷ bs) ≡ none
      → is_multicast (b ∷ bs) ≡ (b == 255)
  pub sixteen : (ip : Str) → length ip ≡ 16 → n.to16 ip ≡ some ip

private-bytes :
    (n : Net) (is_multicast : Str → Bool) (laws : NetLaws n is_multicast) (ip4 : Str)
    → length ip4 ≡ 4
    → is_private_bytes ip4 ≡ false
    → n.is_private ip4 ≡ false
unfolding is_private_bytes is_private_v4
private-bytes n is_multicast laws [] l h = ground arith
private-bytes n is_multicast laws (a ∷ []) l h = ground arith
private-bytes n is_multicast laws (a ∷ b ∷ []) l h = ground arith
private-bytes n is_multicast laws (a ∷ b ∷ c ∷ []) l h = ground arith
private-bytes n is_multicast laws (a ∷ b ∷ c ∷ d ∷ []) l h =
    ground (arith, h, laws.private_v4 a b c d)
private-bytes n is_multicast laws (a ∷ b ∷ c ∷ d ∷ e ∷ xs) l h = ground arith

-- An IPv4 address or one of sixteen bytes that the aggregator does not count as private is external
-- for the remediator, which therefore acts on it.
pub not_private-external :
    (n : Net) (is_multicast : Str → Bool) (laws : NetLaws n is_multicast) (ip : Str)
    → is_private_ip n is_multicast ip ≡ false
    → length ip ≡ 4 ⊎ length ip ≡ 16
    → is_external_ip n ip ≡ true
unfolding is_private_ip is_external_ip is_unique_local is_external_v6
not_private-external n is_multicast laws ip h sized = elim (Option-cases (n.to4 ip)) [
  | inl e ↦ v6 ip e sized h
  | inr (ip4, e) ↦ v4 ip4 e
]
  where
    v4 : (ip4 : Str) → n.to4 ip ≡ some ip4 → is_external_ip n ip ≡ true
    v4 ip4 e = ground (arith, e, h, private-bytes n is_multicast laws ip4 (laws.four ip ip4 e))

    v6 :
        (ip : Str)
        → n.to4 ip ≡ none
        → length ip ≡ 4 ⊎ length ip ≡ 16
        → is_private_ip n is_multicast ip ≡ false
        → is_external_ip n ip ≡ true
    v6 [] e sz p = ground (arith, p)
    v6 (b ∷ bs) e (inl l) p = absurd (ground (arith, e, laws.to4-four (b ∷ bs) l))
    v6 (b ∷ bs) e (inr l) p =
        ground (arith, e, p, laws.multicast_v6 b bs l e, laws.sixteen (b ∷ bs) l)
