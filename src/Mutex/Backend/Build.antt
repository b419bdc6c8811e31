-- ===== src/Mutex/Backend/Build.antt =====
-- src/impl/*/threads_*_mutex.h: `thread_internal_mutex_init` and `thread_internal_mutex_destroy` of the
-- three backends, and each backend as the lock of src/mutex.h.
pub mod Usable
use libult.Base.{ℕ, Bool, true, false, Option, none, some, ◌==◌, if◌then◌else◌, Codes}
use libult.Mutex.Init.{Call, mutex_destroy, internal_mutex_init}
use libult.Mutex.Backend.{
  Library, Kind, pthreads, argobots, qthreads, internal_mutex_trylock, internal_mutex_lock,
  internal_mutex_unlock,
}
use libult.Mutex.Object.{LockOps}

-- The functions of the thread libraries that make and destroy a mutex.
pub record Maker (W : Type 0) : Type 0 where
  pub pthread_call : Call → W → ℕ × W
  pub store_initializer : Bool → W → W  -- `memcpy` of the constant of Argobots; recursive?
  pub spinlock_init : Bool → W → ℕ × W  -- `qthread_spinlock_init`; recursive?

module _ {W : Type 0} (lib : Library W) (maker : Maker W) (codes : Codes)
    (enable_debug : Bool) where
  -- `thread_internal_mutex_init` of Argobots
  unfoldable pub init_argobots : Bool → W → ℕ × W
  init_argobots recursive w = (
    codes.success,
    (if recursive then maker.store_initializer true w else maker.store_initializer false w),
  )

  -- `thread_internal_mutex_init` of Qthreads: success, whatever the library returns.
  unfoldable pub init_qthreads : Bool → W → ℕ × W
  init_qthreads recursive w =
      let (ret, w) = maker.spinlock_init recursive (lib.ensure_init w) in
      let w = if enable_debug then if lib.lib_success == ret then w else lib.show_help w else w in
      (codes.success, w)

  -- `thread_internal_mutex_destroy` of Pthreads. `none`: the assertion failed.
  unfoldable pub destroy_pthreads : W → Option W
  destroy_pthreads w =
      let (ret, w) = maker.pthread_call mutex_destroy w in
      if enable_debug then if 0 == ret then some w else none else some w

  -- `thread_internal_mutex_destroy` of Argobots: no specific operation is needed.
  unfoldable pub destroy_argobots : W → Option W
  destroy_argobots w = some w

  -- `thread_internal_mutex_destroy` of Qthreads: no specific operation is needed.
  unfoldable pub destroy_qthreads : W → Option W
  destroy_qthreads w = some w

  -- The functions of the backend that the build has.
  unfoldable pub internal_init : Kind → Bool → W → Option (ℕ × W)
  unfolding init_argobots init_qthreads
  internal_init pthreads recursive w =
      internal_mutex_init codes maker.pthread_call enable_debug recursive w
  internal_init argobots recursive w = some (init_argobots recursive w)
  internal_init qthreads recursive w = some (init_qthreads recursive w)

  unfoldable pub internal_destroy : Kind → W → Option W
  unfolding destroy_pthreads destroy_argobots destroy_qthreads
  internal_destroy pthreads w = destroy_pthreads w
  internal_destroy argobots w = destroy_argobots w
  internal_destroy qthreads w = destroy_qthreads w

  -- What src/mutex.h uses of the backend.
  abbrev pub backend_lock : Kind → LockOps W
  backend_lock kind = record {
    init = internal_init kind;
    trylock = internal_mutex_trylock lib enable_debug kind;
    lock = internal_mutex_lock lib enable_debug kind;
    unlock = internal_mutex_unlock lib enable_debug kind;
    destroy = internal_destroy kind;
  }
