-- ===== src/WaitSync/Protocol/Tests.antt =====
-- src/wait_sync.h and src/impl/base/wait_sync.c: two waiting threads, from WAIT_SYNC_INIT to
-- WAIT_SYNC_RELEASE, and the theorems at their schedule.
use libult.Base.{arith, ℕ, ◌≡◌, refl, true, false, List, [], ◌∷◌, ◌++◌, has, IsDistinct}
use libult.WaitSync.Protocol.{
  Place, is_due, is_head, passes, listed, holds_list, Move, wait, signal, complete, fail, wait_move,
  signal_move, report, move, moves, all_init,
}
use libult.WaitSync.Protocol.Sound.{AllTimely, moves-no_fault}
use libult.WaitSync.Protocol.Safety.{moves-no_lost_wakeup, moves-listed}

abbrev one : ℕ
one = 1

abbrev two : ℕ
two = 2

-- Structure `s` waits for `s` completions.
abbrev counts : ℕ → ℕ
counts s = s

-- Thread 1 becomes the progress manager, and thread 2 falls asleep.
abbrev first_part : List Move
first_part =
    wait 1 true
    ∷ wait 1 true
    ∷ wait 1 true
    ∷ wait 1 true
    ∷ wait 1 true
    ∷ wait 1 true
    ∷ wait 2 true
    ∷ wait 2 true
    ∷ wait 2 true
    ∷ wait 2 true
    ∷ wait 2 true
    ∷ wait 2 true
    ∷ wait 2 true
    ∷ []

-- The completion of 1, which leaves the list and passes its duties on while the signaller is on its
-- way.
abbrev second_part : List Move
second_part = complete 1 1 ∷ wait 1 true ∷ wait 1 true ∷ wait 1 true ∷ signal 1 ∷ wait 1 true ∷ []

-- The rest of both.
abbrev third_part : List Move
third_part =
    wait 1 true
    ∷ signal 1
    ∷ wait 1 true
    ∷ wait 1 true
    ∷ wait 1 true
    ∷ signal 1
    ∷ signal 1
    ∷ wait 1 true
    ∷ wait 2 true
    ∷ wait 2 true
    ∷ wait 2 true
    ∷ complete 2 1
    ∷ complete 2 1
    ∷ wait 2 true
    ∷ signal 2
    ∷ signal 2
    ∷ signal 2
    ∷ signal 2
    ∷ wait 2 true
    ∷ wait 2 true
    ∷ wait 2 true
    ∷ wait 2 true
    ∷ []

asleep : ((moves first_part (all_init counts)).sync 2).wait ≡ Place.sleeping
unfolding moves all_init
asleep = refl

promoted : passes 2 (moves (first_part ++ second_part) (all_init counts)).pass ≡ true
unfolding moves all_init
promoted = refl

all_gone :
    (((moves (first_part ++ second_part ++ third_part) (all_init counts)).sync 1).wait ≡ Place.gone)
    × (((moves (first_part ++ second_part ++ third_part) (all_init counts)).sync 2).wait
        ≡ Place.gone)
unfolding moves all_init
all_gone = (refl, refl)

abbrev whole : List Move
whole = first_part ++ second_part ++ third_part

whole-AllTimely : AllTimely whole (all_init counts)
unfolding AllTimely move wait_move signal_move report all_init
whole-AllTimely = ground arith

moves-no_fault_example : (moves whole (all_init counts)).fault ≡ false
moves-no_fault_example = moves-no_fault counts whole whole-AllTimely

-- A failure while two completions are missing, the release, and then a success.
abbrev late_success : List Move
late_success =
    fail 2 7
    ∷ signal 2
    ∷ signal 2
    ∷ signal 2
    ∷ signal 2
    ∷ wait 2 true
    ∷ wait 2 true
    ∷ complete 2 1
    ∷ []

late_success-fault : (moves late_success (all_init counts)).fault ≡ true
unfolding moves all_init
late_success-fault = refl

moves-no_lost_wakeup_example :
    (((moves first_part (all_init counts)).sync 2).count ≡ 0
      → is_due ((moves first_part (all_init counts)).sync 2).last ≡ true)
    × (is_head 2 (moves first_part (all_init counts)).list ≡ true
        → passes 2 (moves first_part (all_init counts)).pass ≡ true)
moves-no_lost_wakeup_example = moves-no_lost_wakeup counts first_part 2 asleep

moves-listed_example :
    (has 2 (moves first_part (all_init counts)).list
      ≡ listed ((moves first_part (all_init counts)).sync 2).wait)
    × IsDistinct (moves first_part (all_init counts)).list
    × (holds_list ((moves first_part (all_init counts)).sync 2).wait ≡ true
        → holds_list ((moves first_part (all_init counts)).sync 1).wait ≡ true
        → two ≡ one)
moves-listed_example = moves-listed counts first_part two one
