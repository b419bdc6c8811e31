-- ===== src/Condition/Tests.antt =====
-- src/condition.h at concrete counters, and its theorems there.
use libult.Base.{◌≡◌, refl, ◌∷◌, ◌++◌, [], true, false, some, none, ◌≢◌, sub_word, arith, inr}
use libult.Condition.{
  Condition, begin_wait, signal, unlock, progress, lock, condition_signal, perform, perform_all,
  condition_wait, timed_end, condition_timedwait,
}
use libult.Condition.Wait
use libult.Condition.Wait.{polls, condition_wait_blocks}
use libult.Condition.Timed
use libult.Condition.Timed.{condition_timedwait_deadline}

abbrev idle : Condition
idle = record { c_waiting = 0; c_signaled = 0 }

abbrev signaled : Condition
signaled = record { c_waiting = 2; c_signaled = 1 }

-- Two polls, then a signal.
waits :
    condition_wait true ([] ∷ (signal ∷ []) ∷ []) idle []
    ≡ some (idle, lock ∷ progress ∷ unlock ∷ lock ∷ progress ∷ unlock ∷ [])
unfolding condition_wait perform_all perform condition_signal
waits = refl

-- Half a second late, and still waiting; a second late, it gives up.
late :
    condition_timedwait false (10, 0) (([], (10, 500000)) ∷ ([], (11, 0)) ∷ []) idle []
    ≡ some (idle, progress ∷ progress ∷ [])
unfolding condition_timedwait perform_all
late = refl

condition_wait_blocks_example :
    ((Wait.after ((signal ∷ []) ∷ []) (begin_wait idle)).c_signaled ≡ 0
      → condition_wait true ((signal ∷ []) ∷ []) idle [] ≡ none)
    × ((Wait.after ((signal ∷ []) ∷ []) (begin_wait idle)).c_signaled ≢ 0
        → condition_wait true (((signal ∷ []) ∷ []) ++ []) idle []
          ≡ some (
            record {
              c_waiting =
                  sub_word 32 (Wait.after ((signal ∷ []) ∷ []) (begin_wait idle)).c_waiting 1;
              c_signaled =
                  sub_word 32 (Wait.after ((signal ∷ []) ∷ []) (begin_wait idle)).c_signaled 1;
            },
            polls true 1 [],
          ))
condition_wait_blocks_example =
    condition_wait_blocks true ((signal ∷ []) ∷ []) [] idle [] refl (refl, tt)

condition_timedwait_deadline_example :
    condition_timedwait false (10, 0) ((([], (10, 500000)) ∷ []) ++ ([], (11, 0)) ∷ []) idle []
    ≡ some (
      timed_end (perform_all [] (Timed.after (([], (10, 500000)) ∷ []) (begin_wait idle))),
      polls false 2 [],
    )
unfolding perform_all
condition_timedwait_deadline_example =
    condition_timedwait_deadline false (10, 0) (([], (10, 500000)) ∷ []) [] [] (11, 0) idle [] refl
      (refl, omega arith, tt) (inr (omega arith))
