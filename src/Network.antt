-- ===== src/Network.antt =====
-- agent/network.go: which addresses the aggregator tracks, and the addresses of eBPF events. The
-- classification of addresses by package net is the record `Net`.
pub mod Tracked
pub mod Wire
use kerneleye.Base.{
  ℕ, ◌+◌, ◌*◌, ◌/◌, ◌%◌, ◌^◌, Bool, true, false, not, ◌&&◌, ◌||◌, Option, none, some, List, [], ◌∷◌,
  length, take, replicate, ltb, leb, ◌==◌, if◌then◌else◌,
}
use kerneleye.Base.Str.{Str}
use kerneleye.Remediation.{Net}

-- The reserved IPv4 ranges.
unfoldable pub is_private_v4 : ℕ → ℕ → ℕ → Bool
is_private_v4 a b c =
    a == 10
    || (a == 172 && leb 16 b && leb b 31)
    || (a == 192 && b == 168)
    || (a == 100 && leb 64 b && leb b 127)
    || (a == 169 && b == 254)
    || (a == 192 && b == 0 && c == 2)
    || (a == 198 && b == 51 && c == 100)
    || (a == 203 && b == 0 && c == 113)

-- The bytes of `ip4`; what To4 returns has four.
unfoldable pub is_private_bytes : Str → Bool
unfolding is_private_v4
is_private_bytes (a ∷ b ∷ c ∷ d ∷ []) = is_private_v4 a b c
is_private_bytes _ = false

unfoldable pub is_unique_local : Str → Bool
is_unique_local [] = false
is_unique_local (b ∷ bs) = length (b ∷ bs) == 16 && (b == 252 || b == 253)

-- `isPrivateIP`; the empty slice stands for nil. `is_multicast` is IP.IsMulticast.
unfoldable pub is_private_ip : Net → (Str → Bool) → Str → Bool
unfolding is_private_bytes is_unique_local
is_private_ip n is_multicast ip =
    if length ip == 0
    then true
    else if n.is_loopback ip
        || n.is_link_local_unicast ip
        || n.is_link_local_multicast ip
        || is_multicast ip
    then true
    else elim (n.to4 ip) [ none ↦ is_unique_local ip | some ip4 ↦ is_private_bytes ip4 ]

-- `hostOrder`: four bytes, the lowest first, as a uint32.
unfoldable pub host_order : ℕ → ℕ → ℕ → ℕ → ℕ
host_order a b c d = a + b * 2 ^ 8 + c * 2 ^ 16 + d * 2 ^ 24

-- The bytes of a uint32, the highest first.
unfoldable pub network_bytes : ℕ → Str
network_bytes n = n / 2 ^ 24 % 256 ∷ n / 2 ^ 16 % 256 ∷ n / 2 ^ 8 % 256 ∷ n % 256 ∷ []

-- `bytesToIP`; `none` is nil. An IPv6 address has sixteen bytes at least.
unfoldable pub bytes_to_ip : Str → ℕ → Option Str
unfolding host_order network_bytes
bytes_to_ip (a ∷ b ∷ c ∷ d ∷ rest) family =
    if family == 2
    then some (network_bytes (host_order a b c d))
    else some (take 16 (a ∷ b ∷ c ∷ d ∷ rest))
bytes_to_ip _ family = none

-- `ipv4ToBytes` on what net.ParseIP and To4 make of the text; `none` is nil.
unfoldable pub ipv4_to_bytes : Option Str → Str
ipv4_to_bytes (some (a ∷ b ∷ c ∷ d ∷ [])) = d ∷ c ∷ b ∷ a ∷ replicate 12 0
ipv4_to_bytes _ = replicate 16 0

-- `getProtocolFromNumber`
pub data Protocol : Type 0 where
  unknown tcp udp icmp : Protocol

unfoldable pub get_protocol_from_number : ℕ → Protocol
get_protocol_from_number proto =
    if proto == 6 then tcp else if proto == 17 then udp else if proto == 1 then icmp else unknown
