-- ===== src/Mutex/Object/Scoped.antt =====
-- src/mutex.h: the macros, on a lock that keeps its promise.
use libult.Base.{◌≡◌, refl, Bool, true, false, some, if◌then◌else◌, arith, ap, ◌∙◌}
use libult.Mutex.Object.{
  LockOps, Mutex, World, with_lock, mutex_constructor, mutex_static_init, mutex_trylock, mutex_lock,
  mutex_unlock, thread_trylock, thread_unlock, thread_scoped_lock,
}

-- A lock: once initialised it is ready, and `lock` and `unlock` take it and give it back.
pub record IsLock {L : Type 0} (ops : LockOps L) (held ready : L → Bool) : Type 0 where
  pub init-ready :
      (recursive : Bool) (l : L)
      → ready l ≡ false
      → (k : L) × (ops.init recursive l ≡ some (0, k)) × (ready k ≡ true) × (held k ≡ false)
  pub lock-held :
      (l : L)
      → ready l ≡ true
      → held l ≡ false
      → (k : L) × (ops.lock l ≡ some k) × (ready k ≡ true) × (held k ≡ true)
  pub unlock-held :
      (l : L)
      → ready l ≡ true
      → held l ≡ true
      → (k : L) × (ops.unlock l ≡ some k) × (ready k ≡ true) × (held k ≡ false)

-- One whose `trylock` takes it, with the result 0, exactly if it is free.
pub record IsTryLock {L : Type 0} (ops : LockOps L) (held ready : L → Bool) : Type 0 where
  pub trylock-free : (l : L) → held l ≡ false → (ops.trylock l).0 ≡ 0
  pub trylock-taken : (l : L) → held l ≡ true → (ops.trylock l).0 ≡ 1
  pub trylock-held : (l : L) → ready (ops.trylock l).1 ≡ ready l × (held (ops.trylock l).1 ≡ true)

module _ {L A D : Type 0} (internal : LockOps L) (atomic : LockOps A) (held ready : L → Bool) where
  -- What a scoped lock gives: the action saw the mutex `seen`.
  pub record IsScoped (using_threads : Bool) (f : Mutex L A → D → D) (w : World L A D)
      (seen : Mutex L A) (w' : World L A D) : Type 0 where
    pub ran : w'.rest ≡ f seen w.rest
    pub locked : held seen.m_lock ≡ using_threads
    pub untouched : using_threads ≡ false → (seen ≡ w.mutex) × (w'.mutex ≡ w.mutex)
    pub usable : ready w'.mutex.m_lock ≡ true
    pub free : held w'.mutex.m_lock ≡ false

  -- THREAD_SCOPED_LOCK on a free mutex, around an action that leaves the mutex alone, runs the action
  -- once and leaves the mutex free. The action sees the mutex held exactly if several threads may
  -- run; if not, the mutex is as before, then and after it.
  pub thread_scoped_lock-IsScoped :
      (using_threads : Bool) (f : Mutex L A → D → D) (w : World L A D)
      → IsLock internal held ready
      → ready w.mutex.m_lock ≡ true
      → held w.mutex.m_lock ≡ false
      → (seen : Mutex L A) × (w' : World L A D) × (thread_scoped_lock internal atomic using_threads
            (λ v. some (record v { rest = f v.mutex v.rest }))
            w
          ≡ some w')
        × IsScoped using_threads f w seen w'
  unfolding thread_scoped_lock mutex_lock mutex_unlock
  thread_scoped_lock-IsScoped true f w is_lock r e =
      let (k, locks, k_ready, k_held) = is_lock.lock-held w.mutex.m_lock r e in
      let (u, unlocks, u_ready, u_free) = is_lock.unlock-held k k_ready k_held in
      let seen = record w.mutex { m_lock = k } in
      (
        seen,
        record { mutex = record seen { m_lock = u }; rest = f seen w.rest },
        rw (locks, unlocks) refl,
        record {
          ran = refl;
          locked = k_held;
          untouched = λ h. ground arith;
          usable = u_ready;
          free = u_free;
        },
      )
  thread_scoped_lock-IsScoped false f w is_lock r e = (
    w.mutex,
    record w { rest = f w.mutex w.rest },
    refl,
    record { ran = refl; locked = e; untouched = λ _. (refl, refl); usable = r; free = e },
  )

module _ {L A : Type 0} (internal : LockOps L) (held ready : L → Bool)
    (atomic_lock_init : A → A) where
  -- In both builds, and for both classes.
  pub mutex_constructor-ready :
      (enable_debug recursive : Bool) (m0 : Mutex L A)
      → IsLock internal held ready
      → ready m0.m_lock ≡ false
      → (m : Mutex L A) × (mutex_constructor internal atomic_lock_init enable_debug recursive m0
          ≡ some m)
        × (ready m.m_lock ≡ true)
        × (held m.m_lock ≡ false)
  unfolding mutex_constructor mutex_static_init
  mutex_constructor-ready true r m0 is_lock e =
      let (k, built, k_ready, k_free) = is_lock.init-ready r m0.m_lock e in
      (mutex_static_init k (atomic_lock_init m0.m_lock_atomic), rw built refl, k_ready, k_free)
  mutex_constructor-ready false r m0 is_lock e =
      let (k, built, k_ready, k_free) = is_lock.init-ready r m0.m_lock e in
      (
        record m0 { m_lock = k; m_lock_atomic = atomic_lock_init m0.m_lock_atomic },
        rw built refl,
        k_ready,
        k_free,
      )

module _ {L A : Type 0} (internal : LockOps L) (atomic : LockOps A) (held ready : L → Bool) where
  -- On a free mutex, THREAD_TRYLOCK takes it, a second one reports that it is taken if several threads
  -- may run, and does nothing if not; and after THREAD_UNLOCK the first one's result is there again.
  pub thread_trylock-twice :
      (using_threads : Bool) (m : Mutex L A)
      → IsLock internal held ready
      → IsTryLock internal held ready
      → ready m.m_lock ≡ true
      → held m.m_lock ≡ false
      → ((thread_trylock internal atomic using_threads m).0 ≡ 0)
        × ((thread_trylock internal atomic using_threads
              (thread_trylock internal atomic using_threads m).1).0
            ≡ (if using_threads then 1 else 0))
        × (m' : Mutex L A) × (thread_unlock internal atomic using_threads
              (thread_trylock internal atomic using_threads m).1
            ≡ some m')
        × ((thread_trylock internal atomic using_threads m').0 ≡ 0)
  unfolding thread_trylock thread_unlock mutex_trylock mutex_unlock
  thread_trylock-twice true m is_lock is_try r free =
      let (same, taken) = is_try.trylock-held m.m_lock in
      let (k, unlocks, k_ready, k_free) =
        is_lock.unlock-held (internal.trylock m.m_lock).1 (same ∙ r) taken in
      let m1 = (mutex_trylock internal atomic m).1 in
      (
        is_try.trylock-free m.m_lock free,
        is_try.trylock-taken _ taken,
        record m1 { m_lock = k },
        ap (with_lock m1) unlocks,
        is_try.trylock-free k k_free,
      )
  thread_trylock-twice false m is_lock is_try r free = (refl, refl, m, refl, refl)
