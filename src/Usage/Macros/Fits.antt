-- ===== src/Usage/Macros/Fits.antt =====
-- src/thread_usage.h: each macro is defined and keeps to its width.
use libult.Base.{ℕ, ◌≡◌, refl, ◌<◌, ◌^◌, Bool, true, ◌==◌, arith}
use libult.Usage.{Atomics, IsAtomic}
use libult.Usage.Bits.{operator-lt}
use libult.Usage.Laws.{
  thread_op_fetch-eq, thread_fetch_op-eq, thread_compare_exchange_strong-eq, thread_swap-eq,
}
use libult.Usage.Macros.{
  Platform, bits, Function, op_fetch, fetch_op, compare_exchange_strong, swap, is_defined, Macro,
  macro, Args, Result, width, call,
}

-- The arguments are patterns of `w` bits.
abbrev pub AreWords : (f : Function) → ℕ → Args f → Type 0
AreWords (op_fetch o v) w delta = delta < 2 ^ w
AreWords (fetch_op o v) w delta = delta < 2 ^ w
AreWords (compare_exchange_strong v) w (compare, value) = (compare < 2 ^ w) × (value < 2 ^ w)
AreWords (swap v) w value = value < 2 ^ w

-- The result is the new content of the cell, the old one, or whether the cell held what was expected, with
-- the old content in `*compare`.
abbrev pub IsResult : (f : Function) → Args f → (cell cell' : ℕ) → Result f → Type 0
IsResult (op_fetch o w) delta cell cell' r = r ≡ cell'
IsResult (fetch_op o w) delta cell cell' r = r ≡ cell
IsResult (compare_exchange_strong w) (compare, value) cell cell' (done, seen) =
    (done ≡ (cell == compare)) × (seen ≡ cell)
IsResult (swap w) value cell cell' r = (r ≡ cell) × (cell' ≡ value)

module _ {at : Atomics} (ok : IsAtomic at) (p : Platform) (uses_threads : Bool) where
  call-fits :
      (f : Function) (args : Args f) (cell : ℕ)
      → cell < 2 ^ bits p (width f)
      → AreWords f (bits p (width f)) args
      → ((call at p uses_threads f args cell).0 < 2 ^ bits p (width f))
        × IsResult f args cell
            (call at p uses_threads f args cell).0
            (call at p uses_threads f args cell).1
  unfolding call
  call-fits (op_fetch o w) delta cell hc hd =
      rw (thread_op_fetch-eq ok uses_threads o (bits p w) cell delta)
        (operator-lt o (bits p w) cell delta hc hd, refl)
  call-fits (fetch_op o w) delta cell hc hd =
      rw (thread_fetch_op-eq ok uses_threads o (bits p w) cell delta)
        (operator-lt o (bits p w) cell delta hc hd, refl)
  call-fits (compare_exchange_strong w) (compare, value) cell hc (he, hv) =
      rw (thread_compare_exchange_strong-eq ok uses_threads cell compare value) (ground arith)
  call-fits (swap w) value cell hc hv =
      rw (thread_swap-eq ok uses_threads cell value) (hv, (refl, refl))

  macro_defined : (m : Macro) → is_defined (macro m) ≡ true
  unfolding is_defined
  macro_defined m = ground arith

  -- Each macro, with `THREAD_` and with `ATOMIC_`, stands for a function that the header defines, and its
  -- call on a cell and arguments of its width leaves a cell of its width, whether or not threads are
  -- in use: an addition, a subtraction and the operations on bits do not leave the width. The result
  -- of a `thread_OP_fetch_W` is the new content, that of a `thread_fetch_OP_W` and of a swap the old
  -- one, and that of a compare-exchange whether the cell held what was expected, with the old content
  -- in `*compare`. It supposes that the processor's operations do what is documented of them.
  pub macro-call-fits :
      (m : Macro) (args : Args (macro m)) (cell : ℕ)
      → cell < 2 ^ bits p (width (macro m))
      → AreWords (macro m) (bits p (width (macro m))) args
      → (is_defined (macro m) ≡ true)
        × ((call at p uses_threads (macro m) args cell).0 < 2 ^ bits p (width (macro m)))
        × IsResult
            (macro m)
            args
            cell
            (call at p uses_threads (macro m) args cell).0
            (call at p uses_threads (macro m) args cell).1
  macro-call-fits m args cell hc ha =
      let (fits, result) = call-fits (macro m) args cell hc ha in (macro_defined m, fits, result)
