-- ===== src/Mutex/Tests.antt =====
-- The backends' mutexes: runs on a recursive mutex.
use libult.Base.{
  ℕ, zero, suc, ◌≡◌, ◌≢◌, refl, Bool, true, false, Option, none, some, [], ◌∷◌, arith, sample_codes,
  sample_codes-IsCodes,
}
use libult.Mutex.Backend.{Library, pthreads, internal_mutex_trylock}
use libult.Mutex.Backend.Contract.{IsLibrary, IsTrylock, internal_mutex_trylock-IsTrylock}
use libult.Mutex.Init.{
  Call, mutexattr_init, mutexattr_settype, mutex_init, mutexattr_destroy, internal_mutex_init,
}
use libult.Mutex.Init.Balance.{noted, IsMade, IsBalanced, internal_mutex_init-IsBalanced}

-- `pthread_mutexattr_settype` fails.
abbrev settype_fails : Call → ℕ
settype_fails mutexattr_settype = 22
settype_fails c = 0

-- A release build does not notice that the mutex is not recursive; a debug build does.
release_settype :
    internal_mutex_init sample_codes (noted settype_fails) false true []
    ≡ some (0, mutexattr_init ∷ mutexattr_settype ∷ mutex_init true ∷ mutexattr_destroy ∷ [])
unfolding internal_mutex_init
release_settype = refl

debug_settype :
    internal_mutex_init sample_codes (noted settype_fails) true true []
    ≡ some (0xffff_fffa, mutexattr_init ∷ mutexattr_settype ∷ mutexattr_destroy ∷ [])
unfolding internal_mutex_init
debug_settype = refl

internal_mutex_init-IsBalanced_example :
    IsBalanced sample_codes settype_fails true
      (IsMade true true settype_fails)
      (internal_mutex_init sample_codes (noted settype_fails) true true [])
internal_mutex_init-IsBalanced_example =
    internal_mutex_init-IsBalanced sample_codes true true settype_fails sample_codes-IsCodes

-- A recursive mutex: how often the caller holds it, or that another thread does.
abbrev try : Option ℕ → ℕ × Option ℕ
try none = (16, none)
try (some depth) = (0, some (suc depth))

abbrev give_back : Option ℕ → ℕ × Option ℕ
give_back none = (1, none)
give_back (some zero) = (1, some zero)
give_back (some (suc depth)) = (0, some depth)

-- A lock waits until the other thread has given the mutex back.
abbrev wait_for : Option ℕ → ℕ × Option ℕ
wait_for none = (0, some 1)
wait_for (some depth) = (0, some (suc depth))

abbrev by_caller : Option ℕ → Bool
by_caller (some (suc depth)) = true
by_caller w = false

abbrev by_another : Option ℕ → Bool
by_another none = true
by_another (some depth) = false

abbrev library : Library (Option ℕ)
library = record {
  lib_success = 0;
  lib_locked = 16;
  lib_deadlock = 35;
  lib_trylock = try;
  lib_lock = wait_for;
  lib_unlock = give_back;
  lib_yield = λ w. w;
  ensure_init = λ w. w;
  show_help = λ w. w;
}

try_free : (w : Option ℕ) → (try w).0 ≡ 0 → by_another w ≡ false
try_free none e = ground arith
try_free (some depth) e = refl

try_held : (w : Option ℕ) → (try w).0 ≡ 0 → by_caller (try w).1 ≡ true
try_held none e = ground arith
try_held (some depth) e = refl

try_failed : (w : Option ℕ) → (try w).0 ≢ 0 → by_caller (try w).1 ≡ by_caller w
try_failed none e = refl
try_failed (some depth) e = absurd (e refl)

wait_for_held : (w : Option ℕ) → by_caller (wait_for w).1 ≡ true
wait_for_held none = refl
wait_for_held (some depth) = refl

library-IsLibrary : IsLibrary library pthreads by_caller by_another
library-IsLibrary = record {
  success-zero = λ e. refl;
  locked-ne = omega arith;
  deadlock-ne = omega arith;
  trylock-free = try_free;
  trylock-held = try_held;
  trylock-failed = try_failed;
  lock-held = λ w e. wait_for_held w;
  yield-held = λ w. refl;
  init-held = λ w. refl;
  init-others = λ w. refl;
  help-held = λ w. refl;
}

-- The caller holds the mutex already, and acquires it again.
again : internal_mutex_trylock library true pthreads (some 1) ≡ (0, some 2)
unfolding internal_mutex_trylock
again = refl

internal_mutex_trylock-IsTrylock_example :
    IsTrylock by_caller by_another (some 1) (internal_mutex_trylock library true pthreads (some 1))
internal_mutex_trylock-IsTrylock_example =
    internal_mutex_trylock-IsTrylock library true by_caller by_another pthreads (some 1)
      library-IsLibrary
