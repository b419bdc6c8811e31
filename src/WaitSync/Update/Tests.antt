-- ===== src/WaitSync/Update/Tests.antt =====
-- `wait_sync_update` at concrete counts, and its theorems there.
use libult.Base.{◌≡◌, refl, sum, [], ◌∷◌, ◌++◌, arith, sample_codes}
use libult.Usage.{processor, processor-IsAtomic}
use libult.WaitSync.State.{wait_sync_signal, wait_sync_update}
use libult.WaitSync.Sample.{three}
use libult.WaitSync.Update.{run_updates, counted, run_updates_countdown}

-- A failure clears the count.
fails : (wait_sync_update processor sample_codes 30 1 7 three).count 30 ≡ 0
unfolding wait_sync_update wait_sync_signal
fails = refl

run_updates_countdown_example :
    (run_updates processor sample_codes 30 (1 ∷ []) three ≡ counted 30 2 three)
    × (run_updates processor sample_codes 30 ((1 ∷ []) ++ 2 ∷ []) three
        ≡ wait_sync_signal 30 (counted 30 0 three))
unfolding sum
run_updates_countdown_example =
    run_updates_countdown processor-IsAtomic sample_codes 30 (1 ∷ []) 2 three (omega arith)
      (omega arith) (omega arith)
