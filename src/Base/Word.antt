-- ===== src/Base/Word.antt =====
-- Go's fixed-width integers: a signed value is an integer, its bit pattern a number below 2 ^ w,
-- and its big-endian bytes a list (`encoding/binary`, `byte(x >> k)`).
use kerneleye.Base.Tests.{ltb, if◌then◌else◌}
use kerneleye.Base.Int.{ℤ, pos, negsuc}
use Prim.Native.Nat.{ℕ, ◌-◌, ◌/◌, ◌%◌, ◌^◌, ◌<◌}
use mathlib.Core.Path.{◌≡◌, sym, ap, ◌∙◌}
use mathlib.Core.List.{List, [], ◌∷◌, ◌++◌, append_assoc}
use native.Mathlib.Omega.{arith}

-- The two's complement pattern of an integer, cut to w bits: `uint32(x)`, `uint64(x)`.
abbrev pattern_of : ℕ → ℤ → ℕ
pattern_of m (pos n) = n % m
pattern_of m (negsuc n) = m - 1 - n % m

unfoldable pub u32 : ℤ → ℕ
u32 = pattern_of (2 ^ 32)

unfoldable pub u64 : ℤ → ℕ
u64 = pattern_of (2 ^ 64)

abbrev pub InI32 : ℤ → Type 0
InI32 (pos n) = n < 2 ^ 31
InI32 (negsuc n) = n < 2 ^ 31

abbrev pub InI64 : ℤ → Type 0
InI64 (pos n) = n < 2 ^ 63
InI64 (negsuc n) = n < 2 ^ 63

-- The int64 with a given pattern: what an int64 operation leaves of its exact result.
unfoldable pub wrap_i64 : ℤ → ℤ
unfolding u64
wrap_i64 z = let p = u64 z in if ltb p (2 ^ 63) then pos p else negsuc (2 ^ 64 - 1 - p)

-- `binary.BigEndian.AppendUint32`, and `byte(x>>24), byte(x>>16), byte(x>>8), byte(x)`.
unfoldable pub be32 : ℕ → List ℕ
be32 n = n / 2 ^ 24 % 256 ∷ n / 2 ^ 16 % 256 ∷ n / 2 ^ 8 % 256 ∷ n % 256 ∷ []

-- `binary.BigEndian.AppendUint64`: the high half and then the low half.
unfoldable pub be64 : ℕ → List ℕ
be64 n = be32 (n / 2 ^ 32) ++ be32 (n % 2 ^ 32)

pub u32-injective : (a b : ℤ) → InI32 a → InI32 b → u32 a ≡ u32 b → a ≡ b
unfolding u32
u32-injective (pos m) (pos n) h k e = ap pos (omega arith)
u32-injective (pos m) (negsuc n) h k e = absurd (omega arith)
u32-injective (negsuc m) (pos n) h k e = absurd (omega arith)
u32-injective (negsuc m) (negsuc n) h k e = ap negsuc (omega arith)

pub u64-injective : (a b : ℤ) → InI64 a → InI64 b → u64 a ≡ u64 b → a ≡ b
unfolding u64
u64-injective (pos m) (pos n) h k e = ap pos (omega arith)
u64-injective (pos m) (negsuc n) h k e = absurd (omega arith)
u64-injective (negsuc m) (pos n) h k e = absurd (omega arith)
u64-injective (negsuc m) (negsuc n) h k e = ap negsuc (omega arith)

pub u32-lt : (a : ℤ) → u32 a < 2 ^ 32
unfolding u32
u32-lt (pos n) = omega arith
u32-lt (negsuc n) = omega arith

pub u64-lt : (a : ℤ) → u64 a < 2 ^ 64
unfolding u64
u64-lt (pos n) = omega arith
u64-lt (negsuc n) = omega arith

-- What follows a word of known size can be read back together with the word.
pub be32-append :
    (m n : ℕ) (xs ys : List ℕ)
    → m < 2 ^ 32
    → n < 2 ^ 32
    → be32 m ++ xs ≡ be32 n ++ ys
    → (m ≡ n) × (xs ≡ ys)
unfolding be32
be32-append m n xs ys h k e = (omega (arith, digits.0, digits.1, digits.2, digits.3), digits.4)
  where
    digits :
        (m / 2 ^ 24 % 256 ≡ n / 2 ^ 24 % 256)
        × (m / 2 ^ 16 % 256 ≡ n / 2 ^ 16 % 256)
        × (m / 2 ^ 8 % 256 ≡ n / 2 ^ 8 % 256)
        × (m % 256 ≡ n % 256)
        × (xs ≡ ys)
    digits = (cc, cc, cc, cc, cc)

pub be64-append :
    (m n : ℕ) (xs ys : List ℕ)
    → m < 2 ^ 64
    → n < 2 ^ 64
    → be64 m ++ xs ≡ be64 n ++ ys
    → (m ≡ n) × (xs ≡ ys)
unfolding be64
be64-append m n xs ys h k e = (omega (arith, high.0, low.0), low.1)
  where
    high : (m / 2 ^ 32 ≡ n / 2 ^ 32) × (be32 (m % 2 ^ 32) ++ xs ≡ be32 (n % 2 ^ 32) ++ ys)
    high =
        be32-append (m / 2 ^ 32) (n / 2 ^ 32) _ _ (omega arith) (omega arith)
          (sym (append_assoc (be32 (m / 2 ^ 32)) _ xs) ∙ e ∙ append_assoc (be32 (n / 2 ^ 32)) _ ys)

    low : (m % 2 ^ 32 ≡ n % 2 ^ 32) × (xs ≡ ys)
    low = be32-append (m % 2 ^ 32) (n % 2 ^ 32) xs ys (omega arith) (omega arith) high.1
