-- ===== src/Usage.antt =====
-- src/thread_usage.h: the switch `uses_threads`, and the operations on integers that are atomic
-- only if it is set. A cell of `w` bits is its bit pattern. The processor's atomic operations are
-- not part of the repository: they are the parameter `Atomics`, and `IsAtomic` is what their
-- documentation promises. A function returns the new content of the cell and its result.
pub mod Laws
pub mod Sums
pub mod Bits
pub mod Macros
mod Tests
use Prim.Native.Nat.{bit_and, bit_or, bit_xor}
use libult.Base.{ℕ, ◌≡◌, refl, Bool, true, false, ◌==◌, if◌then◌else◌, add_word, sub_word}

-- The operators for which the header defines functions.
pub data Op : Type 0 where
  add : Op
  and : Op
  or : Op
  xor : Op
  sub : Op

-- `a operator b` in `w` bits.
abbrev pub operator : Op → ℕ → ℕ → ℕ → ℕ
operator add w a b = add_word w a b
operator and w a b = bit_and a b
operator or w a b = bit_or a b
operator xor w a b = bit_xor a b
operator sub w a b = sub_word w a b

-- `atomic_OP_fetch_W`, `atomic_fetch_OP_W`, `atomic_compare_exchange_strong_W`, `atomic_swap_W`.
pub record Atomics : Type 0 where
  pub op_fetch : Op → ℕ → ℕ → ℕ → ℕ × ℕ
  pub fetch_op : Op → ℕ → ℕ → ℕ → ℕ × ℕ
  pub compare_exchange_strong : ℕ → ℕ → ℕ → Bool × ℕ × ℕ
  pub swap : ℕ → ℕ → ℕ × ℕ

-- The documented effect of each: the cell, then what is returned; a compare-exchange that fails
-- also stores the cell in the expected value.
pub record IsAtomic (at : Atomics) : Type 0 where
  pub op_fetch-eq :
      (op : Op) (w c d : ℕ) → at.op_fetch op w c d ≡ (operator op w c d, operator op w c d)
  pub fetch_op-eq : (op : Op) (w c d : ℕ) → at.fetch_op op w c d ≡ (operator op w c d, c)
  pub compare_exchange_strong-eq :
      (c e v : ℕ)
      → at.compare_exchange_strong c e v ≡ (if c == e then (true, v, e) else (false, c, c))
  pub swap-eq : (c v : ℕ) → at.swap c v ≡ (v, c)

-- `set_using_threads`: the new value of the global `uses_threads`, and the result.
pub set_using_threads : Bool → Bool × Bool
set_using_threads have = (have, have)

module _ (at : Atomics) (uses_threads : Bool) where
  -- `thread_OP_fetch_W`
  unfoldable pub thread_op_fetch : Op → ℕ → ℕ → ℕ → ℕ × ℕ
  thread_op_fetch op w addr delta =
      if uses_threads
      then at.op_fetch op w addr delta
      else (let cell = operator op w addr delta in (cell, cell))

  -- `thread_fetch_OP_W`
  unfoldable pub thread_fetch_op : Op → ℕ → ℕ → ℕ → ℕ × ℕ
  thread_fetch_op op w addr delta =
      if uses_threads
      then at.fetch_op op w addr delta
      else (let old = addr in (operator op w old delta, old))

  -- `thread_compare_exchange_strong_W`: the result, the cell, and `*compare`.
  unfoldable pub thread_compare_exchange_strong : ℕ → ℕ → ℕ → Bool × ℕ × ℕ
  thread_compare_exchange_strong addr compare value =
      if uses_threads
      then at.compare_exchange_strong addr compare value
      else if addr == compare
      then (true, value, compare)
      else (false, addr, addr)

  -- `thread_swap_W`
  unfoldable pub thread_swap : ℕ → ℕ → ℕ × ℕ
  thread_swap ptr newvalue =
      if uses_threads then at.swap ptr newvalue else (let old = ptr in (newvalue, old))

-- The documented operations, as functions.
abbrev pub processor : Atomics
processor = record {
  op_fetch = λ op w c d. (operator op w c d, operator op w c d);
  fetch_op = λ op w c d. (operator op w c d, c);
  compare_exchange_strong = λ c e v. if c == e then (true, v, e) else (false, c, c);
  swap = λ c v. (v, c);
}

pub processor-IsAtomic : IsAtomic processor
processor-IsAtomic = record {
  op_fetch-eq = λ op w c d. refl;
  fetch_op-eq = λ op w c d. refl;
  compare_exchange_strong-eq = λ c e v. refl;
  swap-eq = λ c v. refl;
}
