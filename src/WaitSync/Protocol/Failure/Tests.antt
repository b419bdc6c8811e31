-- ===== src/WaitSync/Protocol/Failure/Tests.antt =====
-- src/impl/base/wait_sync.c: a global wake-up with a failure at a schedule of one thread.
use libult.Base.{ℕ, ◌≡◌, refl, true, List, none, [], ◌∷◌, ◌++◌}
use libult.WaitSync.Protocol.{Place, Owner, Last, Pass, Move, wait, complete, moves, all_init}
use libult.WaitSync.Protocol.Failure.{global_wakeup, release_first, global_wakeup_fault}

-- Structure `s` waits for `s` completions.
abbrev counts : ℕ → ℕ
counts s = s

-- Steps behind the wake-up.
abbrev later_part : List Move
later_part = wait 1 true ∷ wait 1 true ∷ complete 2 1 ∷ wait 1 true ∷ wait 1 true ∷ wait 1 true ∷ []

-- Thread 1 alone in the progress loop, with its completion not reported yet.
abbrev driving_part : List Move
driving_part =
    wait 1 true ∷ wait 1 true ∷ wait 1 true ∷ wait 1 true ∷ wait 1 true ∷ wait 1 true ∷ []

-- And with the completion reported, but not signalled yet.
abbrev completed_part : List Move
completed_part = driving_part ++ complete 1 1 ∷ []

completed_alone :
    ((moves completed_part (all_init counts)).list ≡ 1 ∷ [])
    × ((moves completed_part (all_init counts)).list_lock ≡ none)
    × ((moves completed_part (all_init counts)).pass ≡ Pass.idle)
unfolding moves all_init
completed_alone = (refl, refl, refl)

completed_places :
    (((moves completed_part (all_init counts)).sync 1).wait ≡ Place.driving)
    × (((moves completed_part (all_init counts)).sync 1).last ≡ Last.locking)
    × (((moves completed_part (all_init counts)).sync 1).lock ≡ Owner.free)
unfolding moves all_init
completed_places = (refl, refl, refl)

global_wakeup_fault_example :
    (moves (release_first 1) (global_wakeup 7 (moves completed_part (all_init counts)))).fault
    ≡ true
global_wakeup_fault_example =
    global_wakeup_fault (moves completed_part (all_init counts)) 7 1 completed_alone.0
      completed_alone.1 completed_alone.2 completed_places.0 completed_places.1 completed_places.2
