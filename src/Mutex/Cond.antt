-- ===== src/Mutex/Cond.antt =====
-- The functions `thread_internal_cond_*` of src/impl/pthreads/threads_pthreads_mutex.h and
-- src/impl/argobots/threads_argobots_mutex.h, and `cond_*` of src/impl/base/mutex.c on top of them. Those
-- of Qthreads stand in Qthreads.Cond. `W` is the state of the process; the functions of the thread
-- libraries are the parameter `CondLibrary`.
pub mod Builds
mod Tests
use libult.Base.{
  ℕ, Bool, true, false, Option, none, some, List, [], ◌∷◌, ◌==◌, ◌>>=◌, if◌then◌else◌, Codes,
}

-- What the functions call, on the condition variable at hand.
pub record CondLibrary (W : Type 0) : Type 0 where
  pub abt_success : ℕ
  pub lib_cond_init : W → ℕ × W  -- `pthread_cond_init`
  pub copy_initializer : W → W  -- `memcpy` from `ABT_COND_INITIALIZER`
  pub lib_cond_wait : W → ℕ × W
  pub lib_cond_broadcast : W → ℕ × W
  pub lib_cond_signal : W → ℕ × W
  pub lib_cond_destroy : W → ℕ × W  -- `pthread_cond_destroy`

pub data Backend : Type 0 where
  pthreads : Backend
  argobots : Backend

pub data Op : Type 0 where
  init : Op
  wait : Op
  broadcast : Op
  signal : Op
  destroy : Op

module _ {W : Type 0} (lib : CondLibrary W) (codes : Codes) (enable_debug : Bool) where
  -- The assertion on what the library returned, which stands in debug builds only. `none`: it fails,
  -- and the process ends.
  abbrev pub check : (expected : ℕ) → ℕ × W → Option W
  check expected (ret, w) =
      if enable_debug then if expected == ret then some w else none else some w

  -- `thread_internal_cond_init` of Pthreads
  abbrev pub cond_init_pthreads : W → ℕ × W
  cond_init_pthreads w =
      let (ret, w) = lib.lib_cond_init w in
      ((if 0 == ret then codes.success else codes.err_in_errno), w)

  -- `thread_internal_cond_init` of Argobots
  abbrev pub cond_init_argobots : W → ℕ × W
  cond_init_argobots w = (codes.success, lib.copy_initializer w)

  -- `thread_internal_cond_wait` of Pthreads
  abbrev pub cond_wait_pthreads : W → Option W
  cond_wait_pthreads w = check 0 (lib.lib_cond_wait w)

  -- `thread_internal_cond_wait` of Argobots
  abbrev pub cond_wait_argobots : W → Option W
  cond_wait_argobots w = check lib.abt_success (lib.lib_cond_wait w)

  -- `thread_internal_cond_broadcast` of Pthreads
  abbrev pub cond_broadcast_pthreads : W → Option W
  cond_broadcast_pthreads w = check 0 (lib.lib_cond_broadcast w)

  -- `thread_internal_cond_broadcast` of Argobots
  abbrev pub cond_broadcast_argobots : W → Option W
  cond_broadcast_argobots w = check lib.abt_success (lib.lib_cond_broadcast w)

  -- `thread_internal_cond_signal` of Pthreads
  abbrev pub cond_signal_pthreads : W → Option W
  cond_signal_pthreads w = check 0 (lib.lib_cond_signal w)

  -- `thread_internal_cond_signal` of Argobots
  abbrev pub cond_signal_argobots : W → Option W
  cond_signal_argobots w = check lib.abt_success (lib.lib_cond_signal w)

  -- `thread_internal_cond_destroy` of Pthreads
  abbrev pub cond_destroy_pthreads : W → Option W
  cond_destroy_pthreads w = check 0 (lib.lib_cond_destroy w)

  -- `thread_internal_cond_destroy` of Argobots
  abbrev pub cond_destroy_argobots : W → Option W
  cond_destroy_argobots w = some w

  -- The functions of mutex.c that return `SUCCESS` behind the call of the backend.
  abbrev pub then_success : Option W → Option (ℕ × W)
  then_success none = none
  then_success (some w) = some (codes.success, w)

  -- `cond_init`, `cond_wait`, `cond_broadcast`, `cond_signal` and `cond_destroy`, in a build with the
  -- backend given
  unfoldable pub cond_op : Backend → Op → W → Option (ℕ × W)
  cond_op pthreads init w = some (cond_init_pthreads w)
  cond_op argobots init w = some (cond_init_argobots w)
  cond_op pthreads wait w = then_success (cond_wait_pthreads w)
  cond_op argobots wait w = then_success (cond_wait_argobots w)
  cond_op pthreads broadcast w = then_success (cond_broadcast_pthreads w)
  cond_op argobots broadcast w = then_success (cond_broadcast_argobots w)
  cond_op pthreads signal w = then_success (cond_signal_pthreads w)
  cond_op argobots signal w = then_success (cond_signal_argobots w)
  cond_op pthreads destroy w = then_success (cond_destroy_pthreads w)
  cond_op argobots destroy w = then_success (cond_destroy_argobots w)

  -- Calls one after the other, with what they return.
  unfoldable pub cond_ops : Backend → List Op → W → Option (List ℕ × W)
  unfolding cond_op
  cond_ops b [] w = some ([], w)
  cond_ops b (op ∷ ops) w = do
    (ret, w') ← cond_op b op w
    (rets, w'') ← cond_ops b ops w'
    some (ret ∷ rets, w'')
