-- ===== src/Mutex/Object.antt =====
-- src/mutex.h and src/impl/base/mutex.c: `mutex_t`, which holds two locks, and the macros that lock
-- only where several threads may run.
pub mod Scoped
pub mod Life
use libult.Base.{ℕ, Bool, true, false, Option, none, some, Ptr, null, ◌==◌, if◌then◌else◌, ◌>>=◌}

-- A lock, as the backend and the atomics of the platform give it. `none`: the process ends.
pub record LockOps (L : Type 0) : Type 0 where
  pub init : Bool → L → Option (ℕ × L)  -- recursive?
  pub trylock : L → ℕ × L
  pub lock : L → Option L
  pub unlock : L → Option L
  pub destroy : L → Option L

-- `mutex_t` with the fields of a debug build
pub record Mutex (L A : Type 0) : Type 0 where
  pub m_lock : L
  pub m_lock_debug : ℕ
  pub m_lock_file : Ptr
  pub m_lock_line : ℕ
  pub m_lock_atomic : A

-- A process with one mutex, and what the mutex protects.
pub record World (L A D : Type 0) : Type 0 where
  pub mutex : Mutex L A
  pub rest : D

-- The end of the two constructors. A failed initialisation ends the process in a debug build; in a
-- release build it is not looked at, and the fields of a debug build are not there.
abbrev pub constructed :
    {L A : Type 0} → (A → A) → (enable_debug : Bool) → Mutex L A → ℕ × L → Option (Mutex L A)
constructed atomic_lock_init enable_debug m (ret, l) =
    if enable_debug
    then if 0 == ret
      then some (record {
        m_lock = l;
        m_lock_debug = 0;
        m_lock_file = null;
        m_lock_line = 0;
        m_lock_atomic = atomic_lock_init m.m_lock_atomic;
      })
      else none
    else some (record m { m_lock = l; m_lock_atomic = atomic_lock_init m.m_lock_atomic })

-- `mca_threads_mutex_constructor` and `mca_threads_recursive_mutex_constructor`
unfoldable pub mutex_constructor :
    {L A : Type 0}
    → LockOps L
    → (A → A)
    → (enable_debug recursive : Bool) → Mutex L A
    → Option (Mutex L A)
mutex_constructor internal atomic_lock_init enable_debug recursive m = do
  built ← internal.init recursive m.m_lock
  constructed atomic_lock_init enable_debug m built

-- `MUTEX_STATIC_INIT` and `RECURSIVE_MUTEX_STATIC_INIT`, with the backend's and the platform's
-- constants.
unfoldable pub mutex_static_init : {L A : Type 0} → L → A → Mutex L A
mutex_static_init initializer atomic_lock_init = record {
  m_lock = initializer;
  m_lock_debug = 0;
  m_lock_file = null;
  m_lock_line = 0;
  m_lock_atomic = atomic_lock_init;
}

-- A new inner lock put into the mutex.
abbrev pub with_lock : {L A : Type 0} → Mutex L A → Option L → Option (Mutex L A)
with_lock m none = none
with_lock m (some l) = some (record m { m_lock = l })

abbrev pub with_atomic : {L A : Type 0} → Mutex L A → Option A → Option (Mutex L A)
with_atomic m none = none
with_atomic m (some a) = some (record m { m_lock_atomic = a })

-- `mca_threads_mutex_destructor` and `mca_threads_recursive_mutex_destructor`
unfoldable pub mutex_destructor : {L A : Type 0} → LockOps L → Mutex L A → Option (Mutex L A)
mutex_destructor internal m = with_lock m (internal.destroy m.m_lock)

module _ {L A : Type 0} (internal : LockOps L) (atomic : LockOps A) where
  -- `mutex_trylock`
  unfoldable pub mutex_trylock : Mutex L A → ℕ × Mutex L A
  mutex_trylock m = let (ret, l) = internal.trylock m.m_lock in (ret, record m { m_lock = l })

  -- `mutex_lock`
  unfoldable pub mutex_lock : Mutex L A → Option (Mutex L A)
  mutex_lock m = with_lock m (internal.lock m.m_lock)

  -- `mutex_unlock`
  unfoldable pub mutex_unlock : Mutex L A → Option (Mutex L A)
  mutex_unlock m = with_lock m (internal.unlock m.m_lock)

  -- `mutex_atomic_trylock`
  unfoldable pub mutex_atomic_trylock : Mutex L A → ℕ × Mutex L A
  mutex_atomic_trylock m =
      let (ret, a) = atomic.trylock m.m_lock_atomic in (ret, record m { m_lock_atomic = a })

  -- `mutex_atomic_lock`
  unfoldable pub mutex_atomic_lock : Mutex L A → Option (Mutex L A)
  mutex_atomic_lock m = with_atomic m (atomic.lock m.m_lock_atomic)

  -- `mutex_atomic_unlock`
  unfoldable pub mutex_atomic_unlock : Mutex L A → Option (Mutex L A)
  mutex_atomic_unlock m = with_atomic m (atomic.unlock m.m_lock_atomic)

  -- `THREAD_LOCK`
  unfoldable pub thread_lock : Bool → Mutex L A → Option (Mutex L A)
  unfolding mutex_lock
  thread_lock using_threads m = if using_threads then mutex_lock m else some m

  -- `THREAD_TRYLOCK`
  unfoldable pub thread_trylock : Bool → Mutex L A → ℕ × Mutex L A
  unfolding mutex_trylock
  thread_trylock using_threads m = if using_threads then mutex_trylock m else (0, m)

  -- `THREAD_UNLOCK`
  unfoldable pub thread_unlock : Bool → Mutex L A → Option (Mutex L A)
  unfolding mutex_unlock
  thread_unlock using_threads m = if using_threads then mutex_unlock m else some m

module _ {L A D : Type 0} (internal : LockOps L) (atomic : LockOps A) where
  -- An operation on the mutex alone.
  abbrev pub on_mutex : Option (Mutex L A) → World L A D → Option (World L A D)
  on_mutex none w = none
  on_mutex (some m) w = some (record w { mutex = m })

  -- The locked way through `THREAD_SCOPED_LOCK`.
  abbrev pub locked_action :
      (World L A D → Option (World L A D)) → World L A D → Option (World L A D)
  locked_action action w = do
    w1 ← on_mutex (mutex_lock internal atomic w.mutex) w
    w2 ← action w1
    on_mutex (mutex_unlock internal atomic w2.mutex) w2

  -- `THREAD_SCOPED_LOCK`
  unfoldable pub thread_scoped_lock :
      Bool → (World L A D → Option (World L A D)) → World L A D → Option (World L A D)
  thread_scoped_lock using_threads action w =
      if using_threads then locked_action action w else action w
