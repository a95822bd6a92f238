-- ===== src/Network/Wire.antt =====
-- The bytes of an address in an eBPF event.
use kerneleye.Base.{ℕ, ◌<◌, ◌≡◌, refl, some, [], ◌∷◌, arith}
use kerneleye.Network.{bytes_to_ip, ipv4_to_bytes, host_order, network_bytes}

-- The bytes that are written for an IPv4 address are read back as the address.
pub bytes_to_ip-ipv4_to_bytes :
    (a b c d : ℕ)
    → a < 256
    → b < 256
    → c < 256
    → d < 256
    → bytes_to_ip (ipv4_to_bytes (some (a ∷ b ∷ c ∷ d ∷ []))) 2 ≡ some (a ∷ b ∷ c ∷ d ∷ [])
unfolding bytes_to_ip ipv4_to_bytes host_order network_bytes
bytes_to_ip-ipv4_to_bytes a b c d ha hb hc hd = rw (bytes d c b a hd hc hb ha) refl
  where
    bytes :
        (a b c d : ℕ)
        → a < 256
        → b < 256
        → c < 256
        → d < 256
        → network_bytes (host_order a b c d) ≡ d ∷ c ∷ b ∷ a ∷ []
    bytes a b c d ha hb hc hd = ground arith
