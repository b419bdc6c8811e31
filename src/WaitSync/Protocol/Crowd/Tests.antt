-- ===== src/WaitSync/Protocol/Crowd/Tests.antt =====
-- src/impl/base/wait_sync.c: one thread may drive the progress engine, and a second one comes.
use libult.Base.{
  ◌≢◌, true, total, one, ℕ, ◌≡◌, refl, ◌%◌, ◌^◌, ◌≤◌, false, List, [], ◌∷◌, ◌++◌, arith,
}
use libult.Usage.{processor, processor-IsAtomic, thread_op_fetch}
use libult.WaitSync.Protocol.{
  Place, is_head, Move, wait, complete, move, moves, all_init, wait_move,
}
use libult.WaitSync.Protocol.Progress.Steps.{is_own, mover}
use libult.WaitSync.Protocol.Crowd.Alive.{crowd_moves-alive}
use libult.WaitSync.Protocol.Crowd.{crowd_move, crowd_moves, crowd_init, crowd_wait}
use libult.WaitSync.Protocol.Crowd.Counted.{drivers}
use libult.WaitSync.Protocol.Crowd.Sleeps.{schedule_of, crowd_moves-IsCounted, crowd_wait-sleeps}

abbrev counts : ℕ → ℕ
counts s = 1

-- Thread 1 adds itself and polls, thread 2 comes to the test.
abbrev arrivals : List Move
arrivals =
    wait 1 true
    ∷ wait 1 true
    ∷ wait 1 true
    ∷ wait 1 true
    ∷ wait 1 true
    ∷ wait 1 true
    ∷ wait 1 true
    ∷ wait 2 true
    ∷ wait 2 true
    ∷ wait 2 true
    ∷ wait 2 true
    ∷ wait 2 true
    ∷ []

-- The completion of 1 ends its loop, and it takes itself off.
abbrev leaving : List Move
leaving = arrivals ++ complete 1 1 ∷ wait 1 true ∷ wait 1 true ∷ []

busy : (crowd_moves processor 1 arrivals (crowd_init counts)).num_thread_in_progress ≡ 1
unfolding crowd_moves crowd_move crowd_wait crowd_init wait_move move all_init thread_op_fetch
busy = refl

calm : (crowd_moves processor 1 leaving (crowd_init counts)).num_thread_in_progress ≡ 0
unfolding crowd_moves crowd_move crowd_wait crowd_init wait_move move all_init thread_op_fetch
calm = refl

crowd_moves-IsCounted_example :
    let c = crowd_moves processor 1 leaving (crowd_init counts) in
    (c.num_thread_in_progress ≡ total 3 (λ q. one (c.counted q)) % 2 ^ 32)
    × (c.num_thread_in_progress ≤ drivers 3 c.state)
    × (c.state ≡ moves (schedule_of processor 1 leaving (crowd_init counts)) (all_init counts))
crowd_moves-IsCounted_example =
    crowd_moves-IsCounted processor-IsAtomic 1 3 counts leaving (omega arith)

crowd_wait-sleeps_example :
    (1 ≤ drivers 3 (crowd_moves processor 1 arrivals (crowd_init counts)).state)
    × (is_head 2 (crowd_moves processor 1 arrivals (crowd_init counts)).state.list ≡ false)
unfolding crowd_moves crowd_move crowd_wait crowd_init wait_move move all_init thread_op_fetch
crowd_wait-sleeps_example =
    crowd_wait-sleeps processor-IsAtomic 1 3 counts arrivals (omega arith) 2 (omega arith)
      (omega arith) refl refl

-- Both complete; 1 has left the loop, 2 is about to fall asleep.
abbrev later : List Move
later = leaving ++ complete 2 1 ∷ []

reported : ((crowd_moves processor 1 later (crowd_init counts)).state.sync 2).count ≡ 0
unfolding crowd_moves crowd_move crowd_wait crowd_init wait_move move all_init thread_op_fetch
reported = refl

present : ((crowd_moves processor 1 later (crowd_init counts)).state.sync 2).wait ≢ Place.gone
unfolding crowd_moves crowd_move crowd_wait crowd_init wait_move move all_init thread_op_fetch
present = cc

begun : ((crowd_moves processor 1 later (crowd_init counts)).state.sync 2).wait ≢ Place.start
unfolding crowd_moves crowd_move crowd_wait crowd_init wait_move move all_init thread_op_fetch
begun = cc

crowd_moves-alive_example :
    (m : Move) × (is_own m ≡ true)
    × (((crowd_moves processor 1 later (crowd_init counts)).state.sync (mover m)).wait
        ≢ Place.start)
    × (crowd_move processor 1 m (crowd_moves processor 1 later (crowd_init counts))
        ≢ crowd_moves processor 1 later (crowd_init counts))
crowd_moves-alive_example = crowd_moves-alive processor 1 counts later 2 reported begun present
