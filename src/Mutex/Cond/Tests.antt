-- ===== src/Mutex/Cond/Tests.antt =====
-- src/impl/base/mutex.c: condition variables on a library whose state is whether one is initialised.
use libult.Base.{
  ℕ, ◌≡◌, refl, Bool, true, false, none, some, List, [], ◌∷◌, if◌then◌else◌, sample_codes,
}
use libult.Mutex.Cond.{
  CondLibrary, pthreads, argobots, Op, init, wait, broadcast, signal, destroy, cond_ops,
}
use libult.Mutex.Cond.Builds.{outcome, all_succeed, cond_ops-builds}

-- 22 is `EINVAL`.
abbrev if_ready : Bool → ℕ
if_ready ready = if ready then 0 else 22

abbrev ready_library : CondLibrary Bool
ready_library = record {
  abt_success = 0;
  lib_cond_init = λ w. (0, true);
  copy_initializer = λ w. true;
  lib_cond_wait = λ w. (if_ready w, w);
  lib_cond_broadcast = λ w. (if_ready w, w);
  lib_cond_signal = λ w. (if_ready w, w);
  lib_cond_destroy = λ w. (if_ready w, false);
}

abbrev good_ops : List Op
good_ops = init ∷ signal ∷ broadcast ∷ wait ∷ destroy ∷ []

-- A signal comes after the destruction.
abbrev late_ops : List Op
late_ops = init ∷ destroy ∷ signal ∷ []

good_debug :
    cond_ops ready_library sample_codes true pthreads good_ops false
    ≡ some (0 ∷ 0 ∷ 0 ∷ 0 ∷ 0 ∷ [], false)
unfolding cond_ops
good_debug = refl

late_argobots :
    cond_ops ready_library sample_codes true argobots late_ops false ≡ some (0 ∷ 0 ∷ 0 ∷ [], true)
unfolding cond_ops
late_argobots = refl

cond_ops-builds_example :
    (cond_ops ready_library sample_codes false pthreads late_ops false
      ≡ some (outcome ready_library sample_codes pthreads late_ops false))
    × (cond_ops ready_library sample_codes true pthreads late_ops false ≡ (
        if all_succeed ready_library sample_codes pthreads late_ops false
        then some (outcome ready_library sample_codes pthreads late_ops false)
        else none))
cond_ops-builds_example = cond_ops-builds ready_library sample_codes pthreads late_ops false

late_debug : cond_ops ready_library sample_codes true pthreads late_ops false ≡ none
unfolding cond_ops
late_debug = refl
