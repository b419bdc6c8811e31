-- ===== src/Mutex/Init.antt =====
-- src/impl/pthreads/threads_pthreads_mutex.h: `thread_internal_mutex_init`, which builds an attribute
-- object for a recursive mutex and gives it back. `W` is the state of the process.
pub mod Balance
use libult.Base.{ℕ, Bool, true, false, Option, some, none, ◌==◌, if◌then◌else◌, Codes}

-- The calls of the thread library.
pub data Call : Type 0 where
  mutexattr_init : Call
  mutexattr_settype : Call
  mutex_init : Bool → Call  -- with an attribute object?
  mutexattr_destroy : Call
  mutex_destroy : Call

-- `pthread_call` says what a call returns and what it leaves.
module _ {W : Type 0} (codes : Codes) (pthread_call : Call → W → ℕ × W) where
  -- The attribute object is destroyed, and `assert(0 == ret)`: a failure ends the process.
  abbrev pub attr_destroyed : ℕ → W → Option (ℕ × W)
  attr_destroyed rc w =
      let (ret, w) = pthread_call mutexattr_destroy w in if 0 == ret then some (rc, w) else none

  -- A recursive mutex in a debug build.
  unfoldable pub init_recursive_debug : W → Option (ℕ × W)
  init_recursive_debug w =
      let (ret, w) = pthread_call mutexattr_init w in
      if 0 == ret
      then (let (ret, w) = pthread_call mutexattr_settype w in
          if 0 == ret
          then (let (ret, w) = pthread_call (mutex_init true) w in
              if 0 == ret
              then attr_destroyed codes.success w
              else attr_destroyed codes.err_in_errno w)
          else attr_destroyed codes.err_in_errno w)
      else some (codes.err_in_errno, w)

  -- `0 == ret ? SUCCESS : ERR_IN_ERRNO`
  abbrev pub or_err : ℕ → ℕ
  or_err ret = if 0 == ret then codes.success else codes.err_in_errno

  -- A recursive mutex in a release build.
  unfoldable pub init_recursive : W → ℕ × W
  init_recursive w =
      let (ret, w) = pthread_call mutexattr_init w in
      if 0 == ret
      then (let (_, w) = pthread_call mutexattr_settype w in
          let (ret, w) = pthread_call (mutex_init true) w in
          let (_, w) = pthread_call mutexattr_destroy w in (or_err ret, w))
      else (codes.err_in_errno, w)

  -- `thread_internal_mutex_init`; `none` means that an assertion failed.
  unfoldable pub internal_mutex_init : (enable_debug recursive : Bool) → W → Option (ℕ × W)
  unfolding init_recursive_debug init_recursive
  internal_mutex_init enable_debug recursive w =
      if recursive
      then if enable_debug then init_recursive_debug w else some (init_recursive w)
      else (let (ret, w) = pthread_call (mutex_init false) w in some (or_err ret, w))
