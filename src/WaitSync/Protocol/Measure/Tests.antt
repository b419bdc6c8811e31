-- ===== src/WaitSync/Protocol/Measure/Tests.antt =====
-- src/impl/base/wait_sync.c: the steps of one thread with an effect.
use libult.Base.{ℕ, arith, ◌<◌, ◌≡◌, refl, true, List, [], ◌∷◌}
use libult.WaitSync.Protocol.{
  Place, Last, Move, wait, signal, complete, fail, spurious, move, moves, wait_move, signal_move,
  report, report_failure, State, all_init,
}
use libult.WaitSync.Protocol.Progress.Steps.{mover}
use libult.WaitSync.Protocol.Sound.{IsTimely}
use libult.WaitSync.Protocol.Measure.Ends.{moves-end}
use libult.WaitSync.Protocol.Measure.Bounded.{IsBelow}

-- Structure `s` waits for `s` completions.
abbrev counts : ℕ → ℕ
counts s = s

abbrev two : ℕ
two = 2

-- Thread 1 from the beginning to the release, with its signal before it has the lock.
abbrev short_part : List Move
short_part =
    wait 1 true
    ∷ complete 1 1
    ∷ signal 1
    ∷ signal 1
    ∷ signal 1
    ∷ signal 1
    ∷ wait 1 true
    ∷ wait 1 true
    ∷ wait 1 true
    ∷ []

abbrev place_1 : State → Place
place_1 σ = (σ.sync 1).wait

abbrev last_1 : State → Last
last_1 σ = (σ.sync 1).last

released : ((moves short_part (all_init counts)).sync 1).wait ≡ Place.gone
unfolding moves all_init
released = refl

-- Thread 0 alone, with one completion, to the end.
abbrev one_count : ℕ → ℕ
one_count s = 1

abbrev whole_part : List Move
whole_part =
    wait 0 true
    ∷ complete 0 1
    ∷ signal 0
    ∷ signal 0
    ∷ signal 0
    ∷ signal 0
    ∷ wait 0 true
    ∷ wait 0 true
    ∷ wait 0 true
    ∷ []

only_zero : (s : ℕ) → s < 1 → s ≡ 0
only_zero s l = omega arith

abbrev at_end : State
at_end = moves whole_part (all_init one_count)

none_missing : (s : ℕ) → s ≡ 0 → (at_end.sync s).count ≡ 0
unfolding moves move wait_move signal_move report report_failure all_init
none_missing s e = rw e refl

zero_stuck : (m : Move) → IsBelow 1 m → mover m ≡ 0 → IsTimely m at_end → move m at_end ≡ at_end
unfolding moves move wait_move signal_move report report_failure all_init
zero_stuck (wait s b) l e t = rw e refl
zero_stuck (signal s) l e t = rw e refl
zero_stuck (complete s u) l e t = absurd (t.0 (none_missing s e))
zero_stuck (fail s status) l e t = absurd (t (none_missing s e))
zero_stuck (spurious s) l e t = absurd l

moves-end_example : ((moves whole_part (all_init one_count)).sync 0).wait ≡ Place.gone
moves-end_example =
    moves-end 1 one_count whole_part 0 (omega arith) (λ m l t. zero_stuck m l (mover_zero m l) t)
      (omega arith)
  where
    mover_zero : (m : Move) → IsBelow 1 m → mover m ≡ 0
    mover_zero (wait s b) l = omega arith
    mover_zero (signal s) l = omega arith
    mover_zero (complete s u) l = omega arith
    mover_zero (fail s status) l = omega arith
    mover_zero (spurious s) l = absurd l
