-- ===== src/Mutex/Backend.antt =====
-- The `thread_internal_mutex_*` functions of src/impl/pthreads/threads_pthreads_mutex.h,
-- src/impl/argobots/threads_argobots_mutex.h and src/impl/qthreads/threads_qthreads_mutex.h. The thread
-- libraries' own functions are the parameter `Library`; `W` is the state of the process.
pub mod Contract
pub mod Build
use libult.Base.{ℕ, Bool, true, false, Option, none, some, ◌==◌, if◌then◌else◌}

-- The functions of a thread library that the backends call, with what they return.
pub record Library (W : Type 0) : Type 0 where
  pub lib_success : ℕ  -- 0, `ABT_SUCCESS`, `QTHREAD_SUCCESS`
  pub lib_locked : ℕ  -- `ABT_ERR_MUTEX_LOCKED`, `QTHREAD_OPFAIL`
  pub lib_deadlock : ℕ  -- `EDEADLK`
  pub lib_trylock : W → ℕ × W
  pub lib_lock : W → ℕ × W
  pub lib_unlock : W → ℕ × W
  pub lib_yield : W → W
  pub ensure_init : W → W  -- `qthread_initialize`
  pub show_help : W → W

-- The three backends.
pub data Kind : Type 0 where
  pthreads : Kind
  argobots : Kind
  qthreads : Kind

-- Whether the build is a debug build.
module _ {W : Type 0} (lib : Library W) (enable_debug : Bool) where
  -- `show_help`, which is called in debug builds only.
  abbrev pub help_if : Bool → W → W
  help_if test w = if enable_debug then if test then lib.show_help w else w else w

  -- `thread_internal_mutex_trylock` of Pthreads
  unfoldable pub trylock_pthreads : W → ℕ × W
  trylock_pthreads w = let (ret, w) = lib.lib_trylock w in ((if 0 == ret then 0 else 1), w)

  -- The test of what `trylock` returned, of Argobots and of Qthreads.
  abbrev pub trylock_result : ℕ × W → ℕ × W
  trylock_result (ret, w) =
      if lib.lib_locked == ret
      then (1, w)
      else if lib.lib_success == ret
      then (0, w)
      else (1, help_if true w)

  -- `thread_internal_mutex_trylock` of Argobots
  unfoldable pub trylock_argobots : W → ℕ × W
  trylock_argobots w = trylock_result (lib.lib_trylock w)

  -- `thread_internal_mutex_trylock` of Qthreads
  unfoldable pub trylock_qthreads : W → ℕ × W
  trylock_qthreads w = trylock_result (lib.lib_trylock (lib.ensure_init w))

  -- `thread_internal_mutex_lock` of Pthreads. `none`: an assertion failed, and the process ends.
  unfoldable pub lock_pthreads : W → Option W
  lock_pthreads w =
      let (ret, w) = lib.lib_lock w in
      if enable_debug
      then (let w = (if lib.lib_deadlock == ret then lib.show_help w else w) in
          if 0 == ret then some w else none)
      else some w

  -- `thread_internal_mutex_lock` of Argobots
  unfoldable pub lock_argobots : W → Option W
  lock_argobots w =
      let (ret, w) = lib.lib_lock w in
      some (if enable_debug then if lib.lib_success == ret then w else lib.show_help w else w)

  -- `thread_internal_mutex_lock` of Qthreads
  unfoldable pub lock_qthreads : W → Option W
  lock_qthreads w =
      let (ret, w) = lib.lib_lock (lib.ensure_init w) in
      some (if enable_debug then if lib.lib_success == ret then w else lib.show_help w else w)

  -- `thread_internal_mutex_unlock` of Pthreads
  unfoldable pub unlock_pthreads : W → Option W
  unlock_pthreads w =
      let (ret, w) = lib.lib_unlock w in
      if enable_debug then if 0 == ret then some w else none else some w

  -- `thread_internal_mutex_unlock` of Argobots
  unfoldable pub unlock_argobots : W → Option W
  unlock_argobots w =
      let (ret, w) = lib.lib_unlock w in
      some (
        lib.lib_yield
          (if enable_debug then if lib.lib_success == ret then w else lib.show_help w else w))

  -- `thread_internal_mutex_unlock` of Qthreads
  unfoldable pub unlock_qthreads : W → Option W
  unlock_qthreads w =
      let (ret, w) = lib.lib_unlock (lib.ensure_init w) in
      some (
        lib.lib_yield
          (if enable_debug then if lib.lib_success == ret then w else lib.show_help w else w))

  -- The functions of the backend that the build has.
  unfoldable pub internal_mutex_trylock : Kind → W → ℕ × W
  unfolding trylock_pthreads trylock_argobots trylock_qthreads
  internal_mutex_trylock pthreads w = trylock_pthreads w
  internal_mutex_trylock argobots w = trylock_argobots w
  internal_mutex_trylock qthreads w = trylock_qthreads w

  unfoldable pub internal_mutex_lock : Kind → W → Option W
  unfolding lock_pthreads lock_argobots lock_qthreads
  internal_mutex_lock pthreads w = lock_pthreads w
  internal_mutex_lock argobots w = lock_argobots w
  internal_mutex_lock qthreads w = lock_qthreads w

  unfoldable pub internal_mutex_unlock : Kind → W → Option W
  unfolding unlock_pthreads unlock_argobots unlock_qthreads
  internal_mutex_unlock pthreads w = unlock_pthreads w
  internal_mutex_unlock argobots w = unlock_argobots w
  internal_mutex_unlock qthreads w = unlock_qthreads w
