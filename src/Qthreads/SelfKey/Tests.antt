-- ===== src/Qthreads/SelfKey/Tests.antt =====
-- src/impl/qthreads/threads_qthreads_module.c: two threads that meet at the lock.
use libult.Base.{ℕ, ◌≡◌, refl, false, none, List, [], ◌∷◌, arith}
use libult.Qthreads.SelfKey.{enter, done, Shared, self_key_ensure_init}
use libult.Qthreads.SelfKey.Once.{IsOnce, self_key_ensure_init-IsOnce}

abbrev start : Shared
start = record { lock = none; init = false; created = 0; at = λ t. enter }

start-IsOnce : IsOnce start
start-IsOnce = record { place = λ t. tt; initialised = λ h. ground arith; idle = λ h i. refl }

-- Both threads see the key missing, the first one creates it, and the second one waits.
abbrev schedule : List ℕ
schedule = 1 ∷ 2 ∷ 1 ∷ 2 ∷ 1 ∷ 1 ∷ 2 ∷ 1 ∷ 1 ∷ 2 ∷ 2 ∷ 2 ∷ []

both_done :
    (self_key_ensure_init schedule start).at 1 ≡ done
    × (self_key_ensure_init schedule start).at 2 ≡ done
    × (self_key_ensure_init schedule start).created ≡ 1
unfolding self_key_ensure_init
both_done = (refl, refl, refl)

self_key_ensure_init-IsOnce_example : IsOnce (self_key_ensure_init schedule start)
self_key_ensure_init-IsOnce_example = self_key_ensure_init-IsOnce schedule start start-IsOnce
