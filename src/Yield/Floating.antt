-- ===== src/Yield/Floating.antt =====
-- Arithmetic on `double`, for numbers that are not negative, as IEEE 754 has it.
use libult.Base.{ℕ, ◌≡◌, ◌+◌, ◌*◌, ◌/◌, ◌^◌, ◌≤◌, ◌<◌}

pub record Doubles (D : Type 0) : Type 0 where
  pub of_nat : ℕ → D
  pub add : D → D → D
  pub mul : D → D → D
  pub div : D → D → D
  pub trunc : D → ℕ  -- the conversion to an integer type

-- A result that has 53 bits is exact. A quotient is rounded monotonically: it is on the same side of
-- a number of 53 bits, `m / 2 ^ k`, as the exact quotient is.
pub record IsDouble {D : Type 0} (double : Doubles D) : Type 0 where
  pub trunc-of_nat : (n : ℕ) → n ≤ 2 ^ 53 → double.trunc (double.of_nat n) ≡ n
  pub add-of_nat :
      (a b : ℕ)
      → a + b ≤ 2 ^ 53
      → double.add (double.of_nat a) (double.of_nat b) ≡ double.of_nat (a + b)
  pub mul-of_nat :
      (a b : ℕ)
      → a * b ≤ 2 ^ 53
      → double.mul (double.of_nat a) (double.of_nat b) ≡ double.of_nat (a * b)
  pub le-div :
      (a b m k : ℕ)
      → a ≤ 2 ^ 53
      → b ≤ 2 ^ 53
      → m ≤ 2 ^ 53
      → 0 < b
      → m * b ≤ a * 2 ^ k
      → m / 2 ^ k ≤ double.trunc (double.div (double.of_nat a) (double.of_nat b))
  pub div-le :
      (a b m k : ℕ)
      → a ≤ 2 ^ 53
      → b ≤ 2 ^ 53
      → m ≤ 2 ^ 53
      → 0 < b
      → a * 2 ^ k ≤ m * b
      → double.trunc (double.div (double.of_nat a) (double.of_nat b)) ≤ m / 2 ^ k
