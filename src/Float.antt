-- ===== src/Float.antt =====
-- The float64 arithmetic and the `math` functions that shared/scoring and agent/remediation use, as a
-- record of operations on an unknown carrier, and the IEEE 754 facts that the theorems need.
use kerneleye.Base.{ℕ, ◌≡◌, ◌≤◌, Bool, true, false}
use kerneleye.Base.Int.{ℤ, pos, ◌≤ℤ◌}

-- `of_int` converts an int; `decimal m k` is the literal m / 10^k; `trunc` is the conversion `int(x)`;
-- `seconds` and `hours` are those of a time.Duration; `lt`, `le` and `eq` are false on NaN.
pub record Float : Type 1 where
  pub F : Type 0
  pub of_int : ℤ → F
  pub decimal : ℕ → ℕ → F
  pub trunc : F → ℤ
  pub seconds : ℤ → F
  pub hours : ℤ → F
  pub add : F → F → F
  pub sub : F → F → F
  pub mul : F → F → F
  pub div : F → F → F
  pub pow : F → F → F
  pub log10 : F → F
  pub sqrt : F → F
  pub max : F → F → F
  pub lt : F → F → Bool
  pub le : F → F → Bool
  pub eq : F → F → Bool

-- Whole numbers as floats.
abbrev pub num : (f : Float) → ℕ → f.F
num f n = f.of_int (pos n)

-- The order is strict, equal floats compare alike and
-- truncation does not pass a whole number that the float does not pass. All hold with NaN, whose
-- conversion to an int is never positive on the platforms of the agent.
pub record FloatLaws (f : Float) : Type 0 where
  pub lt_irrefl : (x : f.F) → f.lt x x ≡ false
  pub lt_trans : (x y z : f.F) → f.lt x y ≡ true → f.lt y z ≡ true → f.lt x z ≡ true
  pub lt_eq : (x y z : f.F) → f.eq x y ≡ true → f.lt x z ≡ f.lt y z
  pub trunc_le : (x : f.F) (n : ℕ) → n ≤ 1000 → f.lt (num f n) x ≡ false → f.trunc x ≤ℤ pos n
