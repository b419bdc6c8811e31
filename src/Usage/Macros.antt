-- ===== src/Usage/Macros.antt =====
-- src/thread_usage.h: the functions that the header defines, and the macros that stand for them.
mod Fits
mod Tests
use libult.Base.{ℕ, Bool, true, false, ◌&&◌, ◌||◌, List, [], ◌∷◌, ◌==◌}
use libult.Usage.{
  Op, add, and, or, xor, sub, Atomics, thread_op_fetch, thread_fetch_op,
  thread_compare_exchange_strong, thread_swap,
}

-- `int32_t`, `int64_t`, `size_t` and `intptr_t`
pub data Width : Type 0 where
  w32 : Width
  w64 : Width
  size_t : Width
  ptr : Width

-- The bits of the two types that the platform chooses.
pub record Platform : Type 0 where
  pub size_bits : ℕ
  pub ptr_bits : ℕ

abbrev pub bits : Platform → Width → ℕ
bits p w32 = 32
bits p w64 = 64
bits p size_t = p.size_bits
bits p ptr = p.ptr_bits

-- `thread_OP_fetch_W`, `thread_fetch_OP_W`, `thread_compare_exchange_strong_W`, `thread_swap_W`
pub data Function : Type 0 where
  op_fetch : Op → Width → Function
  fetch_op : Op → Width → Function
  compare_exchange_strong : Width → Function
  swap : Width → Function

-- The lines `THREAD_DEFINE_ATOMIC_OP`, each of which defines two functions.
abbrev pub op_instances : List (Op × Width)
op_instances =
    (add, w32)
    ∷ (add, size_t)
    ∷ (and, w32)
    ∷ (or, w32)
    ∷ (xor, w32)
    ∷ (sub, w32)
    ∷ (sub, size_t)
    ∷ (add, w64)
    ∷ (and, w64)
    ∷ (or, w64)
    ∷ (xor, w64)
    ∷ (sub, w64)
    ∷ []

-- `THREAD_DEFINE_ATOMIC_COMPARE_EXCHANGE` and `THREAD_DEFINE_ATOMIC_SWAP`
abbrev pub exchange_instances : List Width
exchange_instances = w32 ∷ ptr ∷ w64 ∷ []

abbrev pub swap_instances : List Width
swap_instances = w32 ∷ ptr ∷ w64 ∷ []

-- Names that differ have different numbers.
abbrev op_number : Op → ℕ
op_number add = 0
op_number and = 1
op_number or = 2
op_number xor = 3
op_number sub = 4

abbrev width_number : Width → ℕ
width_number w32 = 0
width_number w64 = 1
width_number size_t = 2
width_number ptr = 3

abbrev pub has_width : Width → List Width → Bool
has_width w [] = false
has_width w (v ∷ vs) = width_number w == width_number v || has_width w vs

abbrev pub has_op : Op → Width → List (Op × Width) → Bool
has_op o w [] = false
has_op o w ((p, v) ∷ vs) =
    (op_number o == op_number p && width_number w == width_number v) || has_op o w vs

-- Does the header define the function?
unfoldable pub is_defined : Function → Bool
is_defined (op_fetch o w) = has_op o w op_instances
is_defined (fetch_op o w) = has_op o w op_instances
is_defined (compare_exchange_strong w) = has_width w exchange_instances
is_defined (swap w) = has_width w swap_instances

-- The names behind `THREAD_` and `ATOMIC_`.
pub data Macro : Type 0 where
  add_fetch32 : Macro
  and_fetch32 : Macro
  or_fetch32 : Macro
  xor_fetch32 : Macro
  add_fetch_size_t : Macro
  sub_fetch_size_t : Macro
  fetch_add32 : Macro
  fetch_and32 : Macro
  fetch_or32 : Macro
  fetch_xor32 : Macro
  fetch_add_size_t : Macro
  fetch_sub_size_t : Macro
  compare_exchange_strong_32 : Macro
  compare_exchange_strong_ptr : Macro
  swap_32 : Macro
  swap_ptr : Macro
  add_fetch64 : Macro
  and_fetch64 : Macro
  or_fetch64 : Macro
  xor_fetch64 : Macro
  fetch_add64 : Macro
  fetch_and64 : Macro
  fetch_or64 : Macro
  fetch_xor64 : Macro
  compare_exchange_strong_64 : Macro
  swap_64 : Macro

-- What a macro stands for; with `ATOMIC_` it is the same as with `THREAD_`, so that it is atomic only
-- where threads are in use.
abbrev pub macro : Macro → Function
macro add_fetch32 = op_fetch add w32
macro and_fetch32 = op_fetch and w32
macro or_fetch32 = op_fetch or w32
macro xor_fetch32 = op_fetch xor w32
macro add_fetch_size_t = op_fetch add size_t
macro sub_fetch_size_t = op_fetch sub size_t
macro fetch_add32 = fetch_op add w32
macro fetch_and32 = fetch_op and w32
macro fetch_or32 = fetch_op or w32
macro fetch_xor32 = fetch_op xor w32
macro fetch_add_size_t = fetch_op add size_t
macro fetch_sub_size_t = fetch_op sub size_t
macro compare_exchange_strong_32 = compare_exchange_strong w32
macro compare_exchange_strong_ptr = compare_exchange_strong ptr
macro swap_32 = swap w32
macro swap_ptr = swap ptr
macro add_fetch64 = op_fetch add w64
macro and_fetch64 = op_fetch and w64
macro or_fetch64 = op_fetch or w64
macro xor_fetch64 = op_fetch xor w64
macro fetch_add64 = fetch_op add w64
macro fetch_and64 = fetch_op and w64
macro fetch_or64 = fetch_op or w64
macro fetch_xor64 = fetch_op xor w64
macro compare_exchange_strong_64 = compare_exchange_strong w64
macro swap_64 = swap w64

-- The arguments behind the address: the operand or the new value, or what is expected and the new
-- value; and the result, for a compare-exchange with what is left in `*compare`.
abbrev pub Args : Function → Type 0
Args (compare_exchange_strong w) = ℕ × ℕ
Args f = ℕ

abbrev pub Result : Function → Type 0
Result (compare_exchange_strong w) = Bool × ℕ
Result f = ℕ

abbrev pub width : Function → Width
width (op_fetch o w) = w
width (fetch_op o w) = w
width (compare_exchange_strong w) = w
width (swap w) = w

-- A call: the cell, and the result.
unfoldable pub call : Atomics → Platform → Bool → (f : Function) → Args f → ℕ → ℕ × Result f
call at p uses_threads (op_fetch o w) delta cell =
    thread_op_fetch at uses_threads o (bits p w) cell delta
call at p uses_threads (fetch_op o w) delta cell =
    thread_fetch_op at uses_threads o (bits p w) cell delta
call at p uses_threads (compare_exchange_strong w) (compare, value) cell =
    let (done, cell, compare) = thread_compare_exchange_strong at uses_threads cell compare value in
    (cell, (done, compare))
call at p uses_threads (swap w) value cell = thread_swap at uses_threads cell value
