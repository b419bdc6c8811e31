-- ===== src/Condition/Threads/Tests.antt =====
-- src/condition.h: three threads on one condition.
use libult.Base.{◌≡◌, refl, true, false, List, [], ◌∷◌, update, arith}
use libult.Condition.{condition_construct, condition_signal}
use libult.Condition.Threads.{
  outside, waiting, passing, Room, call_wait, call_timedwait, look, signal, broadcast, Turn,
  look_move, turn, turns, empty,
}
use libult.Condition.Threads.Count.{waits}
use libult.Condition.Threads.Broadcast.{broadcast_wakes}
use libult.Condition.Threads.Spare.{spare_signal_stays, timedwait_steals}

-- 0 and 1 wait, the second with a deadline.
abbrev before : List Turn
before = call_wait 0 ∷ call_timedwait 1 ∷ []

-- 2 comes, 1 gives up, and there is a signal.
abbrev after : List Turn
after = call_wait 2 ∷ look 1 true ∷ look 2 false ∷ signal ∷ call_wait 2 ∷ []

broadcast_wakes_example :
    (turn (look 0 false) (turns after (turn broadcast (turns before empty)))).at 0 ≡ outside
unfolding turns turn empty condition_construct
broadcast_wakes_example =
    broadcast_wakes 3 0 before after false (omega arith) (omega arith) (omega arith) (omega arith)
      (refl, (refl, (refl, (refl, (refl, tt))))) (omega arith) refl

-- Two signals to one thread.
abbrev spare : Room
spare = turns (call_wait 0 ∷ signal ∷ signal ∷ look 0 false ∷ []) empty

one_left : spare.condition ≡ record { c_waiting = 0; c_signaled = 1 }
unfolding turns turn look_move empty condition_construct condition_signal
one_left = refl

abbrev one_waits : Room
one_waits = record {
  condition = record { c_waiting = 1; c_signaled = 0 };
  at = update (λ t. outside) 0 waiting;
}

timedwait_steals_example :
    ((turn (call_timedwait 5) (turn broadcast one_waits)).at 5 ≡ outside)
    × ((turn (look 0 true) (turn (call_timedwait 5) (turn broadcast one_waits))).at 0 ≡ waiting)
timedwait_steals_example = timedwait_steals one_waits 0 5 true refl refl refl

abbrev left_over : Room
left_over = record { condition = record { c_waiting = 0; c_signaled = 1 }; at = λ t. outside }

-- 3 comes and goes while 4 comes.
abbrev earlier : List Turn
earlier = call_wait 3 ∷ signal ∷ look 3 false ∷ call_wait 4 ∷ []

-- Between the call of 3 and its look.
abbrev meanwhile : List Turn
meanwhile = look 4 true ∷ signal ∷ call_wait 5 ∷ []

spare_signal_stays_example :
    (waits ((turns earlier left_over).at 4) ≡ false)
    × ((turns earlier left_over).condition.c_signaled ≡ 1)
    × ((turns meanwhile (turn (call_wait 3) (turns earlier left_over))).at 3 ≡ passing)
    × ((turn (look 3 false) (turns meanwhile (turn (call_wait 3) (turns earlier left_over)))).at 3
        ≡ outside)
unfolding turns turn look_move condition_signal
spare_signal_stays_example =
    spare_signal_stays left_over earlier meanwhile 3 4 false refl (omega arith) (λ u. refl)
      (refl, (refl, (refl, (refl, tt)))) (refl, (refl, (refl, tt))) refl
