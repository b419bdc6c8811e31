-- ===== src/Qthreads/Cond/Tests.antt =====
-- Three waiters on a condition variable, and the theorems there.
use libult.Base.{◌≡◌, refl, some, [], ◌∷◌, arith, if◌then◌else◌, update}
use libult.Qthreads.Cond.{
  Cond, enqueue, cond_signal, wait, signal, broadcast, perform, perform_all, wait_loop, cond_wait,
}
use libult.Qthreads.Cond.Run.{Fifo, fifo_all, Represents, perform_all-Represents}
use libult.Qthreads.Cond.Fair.{served, cond_wait-served}

-- 7 and 8 wait, 7 for longer.
abbrev two : Cond
two = record {
  m_signaled = λ _. 0;
  m_prev = update (λ _. 0) 7 8;
  m_waiter_head = 8;
  m_waiter_tail = 7;
}

abbrev two_fifo : Fifo
two_fifo = record { queue = 7 ∷ 8 ∷ []; woken = λ _. 0 }

two-Represents : Represents two two_fifo
two-Represents = record { queue = ground arith; woken = refl }

second_signal :
    (perform_all 9 (wait 9 ∷ signal ∷ signal ∷ []) two)
    ≡ some (record {
      m_signaled = update (update (update (λ _. 0) 9 0) 7 1) 8 1;
      m_prev = update (update (update (λ _. 0) 7 8) 9 0) 8 9;
      m_waiter_head = 9;
      m_waiter_tail = 9;
    })
unfolding perform_all perform enqueue cond_signal
second_signal = refl

perform_all-Represents_example :
    (c' : Cond) × (perform_all 6 (wait 9 ∷ signal ∷ broadcast ∷ []) two ≡ some c')
    × Represents c' (fifo_all (wait 9 ∷ signal ∷ broadcast ∷ []) two_fifo)
perform_all-Represents_example =
    perform_all-Represents (wait 9 ∷ signal ∷ broadcast ∷ []) 6 two two_fifo two-Represents
      ((omega arith, refl), (tt, (tt, tt))) (omega arith)

-- Two signals reach the two that wait already, so 9 goes on waiting.
cond_wait-served_example :
    (c' : Cond) × (perform_all 6 (signal ∷ signal ∷ []) (enqueue 9 two) ≡ some c')
    × (cond_wait 6 9 ((signal ∷ signal ∷ []) ∷ (signal ∷ []) ∷ []) two ≡ (
        if served (signal ∷ signal ∷ []) 2
        then some (c', (signal ∷ []) ∷ [])
        else wait_loop 6 9 ((signal ∷ []) ∷ []) c'))
cond_wait-served_example =
    cond_wait-served 9 (signal ∷ signal ∷ []) ((signal ∷ []) ∷ []) 6 two two_fifo two-Represents
      (omega arith) refl (tt, (tt, tt)) tt (omega arith)
