-- ===== src/Mutex/Compose/Tests.antt =====
-- src/mutex.h on Pthreads: a recursive mutex that guards three additions, in a debug build.
use libult.Base.{
  ℕ, ◌≡◌, refl, Bool, true, false, some, List, [], ◌∷◌, ◌+◌, ◌*◌, if◌then◌else◌, arith,
  sample_codes,
}
use libult.Mutex.Init.{
  Call, mutexattr_init, mutexattr_settype, mutexattr_destroy, mutex_init, mutex_destroy,
  internal_mutex_init,
}
use libult.Mutex.Backend.{Library, pthreads, qthreads, internal_mutex_lock, internal_mutex_unlock}
use libult.Mutex.Backend.Build.{Maker, backend_lock, internal_init, internal_destroy, init_qthreads}
use libult.Mutex.Backend.Build.Usable.{is_attr, IsSame, IsThreadLibrary}
use libult.Mutex.Object.{
  LockOps, Mutex, World, mutex_constructor, mutex_destructor, thread_scoped_lock, mutex_lock,
  mutex_unlock,
}
use libult.Mutex.Object.Life.{Scope, Ran, mutex_use, mutex_life}
use libult.Mutex.Compose.{backend_life-Ran}

-- The mutex: is it made, and does the one thread hold it?
record Memory : Type 0 where
  made : Bool
  locked : Bool

abbrev library : Library Memory
library = record {
  lib_success = 0;
  lib_locked = 16;
  lib_deadlock = 35;
  lib_trylock = λ w. ((if w.locked then 16 else 0), record w { locked = true });
  lib_lock = λ w. (0, record w { locked = true });
  lib_unlock = λ w. (0, record w { locked = false });
  lib_yield = λ w. w;
  ensure_init = λ w. w;
  show_help = λ w. w;
}

abbrev fresh : Memory
fresh = record { made = true; locked = false }

abbrev none_made : Memory
none_made = record { made = false; locked = false }

abbrev call : Call → Memory → ℕ × Memory
call (mutex_init attr) w = (0, fresh)
call mutex_destroy w = ((if w.locked then 16 else 0), none_made)
call c w = (0, w)

abbrev maker : Maker Memory
maker = record {
  pthread_call = call;
  store_initializer = λ recursive w. fresh;
  spinlock_init = λ recursive w. (0, fresh);
}

attributes :
    (c : Call) (w : Memory)
    → is_attr c ≡ true
    → ((call c w).0 ≡ 0) × IsSame (λ w. w.locked) (λ w. w.made) w (call c w).1
attributes mutexattr_init w e = (refl, (refl, refl))
attributes mutexattr_settype w e = (refl, (refl, refl))
attributes mutexattr_destroy w e = (refl, (refl, refl))
attributes (mutex_init attr) w e = ground arith
attributes mutex_destroy w e = ground arith

library-IsThreadLibrary :
    IsThreadLibrary library maker pthreads (λ w. w.locked) (λ w. w.locked) (λ w. w.made)
library-IsThreadLibrary = record {
  success-zero = λ e. refl;
  deadlock-ne = omega arith;
  attr_call = attributes;
  init_call = λ attr w e. (refl, (refl, refl));
  destroy_call = λ w r e. ground arith;
  store_initializer-made = λ recursive w e. (refl, refl);
  spinlock_init-made = λ recursive w e. (refl, (refl, refl));
  lock-takes = λ w u. (refl, (u.0, refl));
  unlock-gives = λ w u. (refl, (u.0, refl));
  yield-same = λ w. (refl, refl);
  ensure_init-same = λ w. (refl, refl);
}

-- The atomic lock is a number here.
abbrev number_lock : LockOps ℕ
number_lock = record {
  init = λ recursive l. some (0, 0);
  trylock = λ l. (l, 1);
  lock = λ l. some 1;
  unlock = λ l. some 0;
  destroy = λ l. some l;
}

abbrev world : World Memory ℕ ℕ
world = record {
  mutex = record {
    m_lock = none_made;
    m_lock_debug = 9;
    m_lock_file = 9;
    m_lock_line = 9;
    m_lock_atomic = 9;
  };
  rest = 5;
}

-- An action adds more where it sees the mutex held.
abbrev add : ℕ → Mutex Memory ℕ → ℕ → ℕ
add k m n = if m.m_lock.locked then n + 10 * k else n + k

abbrev scopes : List (Scope Memory ℕ ℕ)
scopes = (true, add 1) ∷ (false, add 2) ∷ (true, add 3) ∷ []

backend_life-Ran_example :
    (w' : World Memory ℕ ℕ) × (mutex_life
        (backend_lock library maker sample_codes true pthreads)
        number_lock
        (λ a. 0)
        true
        true
        scopes
        world
      ≡ some w')
    × Ran (λ w. w.locked) scopes 5 w'.rest
unfolding mutex_use mutex_constructor internal_init internal_mutex_init thread_scoped_lock
    mutex_lock internal_mutex_lock mutex_unlock internal_mutex_unlock
backend_life-Ran_example =
    backend_life-Ran library maker sample_codes true (λ w. w.locked) (λ w. w.locked) (λ w. w.made)
      (λ a. 0) number_lock pthreads true scopes world refl library-IsThreadLibrary refl refl

-- The second addition does not see the mutex held.
total :
    (let ops = backend_lock library maker sample_codes true qthreads in
      mutex_life ops number_lock (λ a. 0) true false scopes world)
    ≡ some (record {
      mutex = record {
        m_lock = fresh;
        m_lock_debug = 0;
        m_lock_file = 0;
        m_lock_line = 0;
        m_lock_atomic = 0;
      };
      rest = 47;
    })
unfolding mutex_life mutex_use mutex_constructor mutex_destructor internal_init internal_destroy
    thread_scoped_lock mutex_lock internal_mutex_lock mutex_unlock internal_mutex_unlock
total = refl

-- Without memory, the initialisation of Qthreads reports success for a mutex that is not made.
abbrev no_memory : Maker Memory
no_memory = record maker { spinlock_init = λ recursive w. (12, none_made) }

unmade : init_qthreads library no_memory sample_codes true false none_made ≡ (0, none_made)
unfolding init_qthreads
unmade = refl
