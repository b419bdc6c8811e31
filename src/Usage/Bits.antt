-- ===== src/Usage/Bits.antt =====
-- The operators of src/thread_usage.h on patterns of `w` bits give patterns of `w` bits.
use Prim.Native.Nat.{digits, differ, min, max, bit_and-bitwise, bit_or-bitwise, bit_xor-bitwise}
use libult.Base.{ℕ, zero, suc, ◌<◌, ◌≤◌, ◌/◌, ◌%◌, ◌^◌, arith}
use libult.Usage.{Op, add, and, or, xor, sub, operator}

-- An operation on digits below 2 gives a digit below 2.
digits-lt :
    (z : ℕ → ℕ) (f : ℕ → ℕ → ℕ)
    → ((b : ℕ) → z b ≤ b)
    → ((x y : ℕ) → x < 2 → y < 2 → f x y < 2)
    → (w n a b : ℕ) → a < 2 ^ w
    → b < 2 ^ w
    → digits z f n a b < 2 ^ w
digits-lt z f hz hf w zero a b ha hb = omega (arith, hz b)
digits-lt z f hz hf w (suc n) zero b ha hb = omega (arith, hz b)
digits-lt z f hz hf zero (suc n) (suc a) b ha hb = omega arith
digits-lt z f hz hf (suc w) (suc n) (suc a) b ha hb =
    let rest = digits-lt z f hz hf w n (suc a / 2) (b / 2) (grind arith) (grind arith) in
    let last = hf (suc a % 2) (b % 2) (omega arith) (omega arith) in grind arith

digit_and : (x y : ℕ) → x < 2 → y < 2 → min x y < 2
digit_and x y hx hy = ground arith

digit_or : (x y : ℕ) → x < 2 → y < 2 → max x y < 2
digit_or x y hx hy = ground arith

digit_xor : (x y : ℕ) → x < 2 → y < 2 → differ x y < 2
digit_xor zero y hx hy = hy
digit_xor (suc x) zero hx hy = hx
digit_xor (suc zero) (suc zero) hx hy = omega arith
digit_xor (suc (suc x)) (suc y) hx hy = omega arith
digit_xor (suc x) (suc (suc y)) hx hy = omega arith

pub operator-lt : (op : Op) (w a b : ℕ) → a < 2 ^ w → b < 2 ^ w → operator op w a b < 2 ^ w
operator-lt add w a b ha hb = grind arith
operator-lt and w a b ha hb =
    rw (bit_and-bitwise a b) (digits-lt (λ b. 0) min (λ b. omega arith) digit_and w a a b ha hb)
operator-lt or w a b ha hb =
    rw (bit_or-bitwise a b) (digits-lt (λ b. b) max (λ b. omega arith) digit_or w a a b ha hb)
operator-lt xor w a b ha hb =
    rw (bit_xor-bitwise a b) (digits-lt (λ b. b) differ (λ b. omega arith) digit_xor w a a b ha hb)
operator-lt sub w a b ha hb = grind arith
