-- ===== src/WaitSync/Protocol/Pointers/Tests.antt =====
-- src/impl/base/wait_sync.c: two structures come to the ring, and the head leaves it.
use libult.Base.{ℕ, ◌≡◌, refl, true, List, [], ◌∷◌, arith}
use libult.WaitSync.Sample.{quiet}
use libult.WaitSync.State.{mutex_lock, mutex_unlock, cond_signal}
use libult.WaitSync.Pending.Ring.{IsRing}
use libult.WaitSync.Protocol.{Move, wait, complete, moves, all_init}
use libult.WaitSync.Protocol.Pointers.{moves_pointers, moves_duties, moves-IsRing}

abbrev one : ℕ → ℕ
one s = 1

abbrev arrive : ℕ → List Move → List Move
arrive s ms = wait s true ∷ wait s true ∷ wait s true ∷ wait s true ∷ wait s true ∷ wait s true ∷ ms

-- 1 spins as the head of the list, its completion comes, and it leaves. 2 is next.
abbrev leaves : List Move
leaves = arrive 1 (arrive 2 (complete 1 1 ∷ wait 1 true ∷ wait 1 true ∷ wait 1 true ∷ []))

remaining : (moves leaves (all_init one)).list ≡ 2 ∷ []
unfolding moves all_init
remaining = refl

passed : moves_duties leaves (all_init one) [] ≡ mutex_unlock 2 ∷ cond_signal 2 ∷ mutex_lock 2 ∷ []
unfolding moves_duties moves all_init
passed = refl

moves-IsRing_example :
    IsRing (moves_pointers leaves (all_init one) (quiet true)) (moves leaves (all_init one)).list
    × ((moves_pointers leaves (all_init one) (quiet true)).trace
        ≡ moves_duties leaves (all_init one) [])
moves-IsRing_example = moves-IsRing one leaves (quiet true) (omega arith) refl
