-- ===== src/WaitSync/Wait/Tests.antt =====
-- `ompi_sync_wait_mt` and SYNC_WAIT at concrete counts, and the theorems on them there.
use libult.Base.{
  ◌+◌, ◌≡◌, refl, false, true, none, some, List, [], ◌∷◌, ◌++◌, ◌==◌, if◌then◌else◌, sum, arith,
  sample_codes,
}
use libult.Usage.{processor, processor-IsAtomic}
use libult.WaitSync.State.{Mem, wait_sync_init}
use libult.WaitSync.Pending.{trim_locked}
use libult.WaitSync.Sample.{quiet, three}
use libult.WaitSync.Update.{counted}
use libult.WaitSync.Wait.{
  Round, Meanwhile, ompi_sync_wait_mt, sync_wait, wait_sync_release, is_open,
}
use libult.WaitSync.Wait.Returns.{IsLast, ompi_sync_wait_mt-returns}
use libult.WaitSync.Wait.Single.{all_report}
use libult.WaitSync.Wait.Life.{completed, quiet_rounds, sync_wait-life}

-- A fourth structure that waits for one completion.
abbrev four : Mem
four = counted 40 1 three

-- The others do nothing, or complete it.
abbrev idle : Round
idle = record { others = λ m. m; in_progress = 1 }

abbrev completes : Round
completes = record { others = counted 40 0; in_progress = 1 }

completes-IsLast : IsLast 40 completes
completes-IsLast m = refl

abbrev nothing : Meanwhile
nothing = record {
  enter = λ m. m;
  list_lock = λ m. m;
  listed = idle;
  trim = λ m. m;
  leave = λ m. m;
}

ompi_sync_wait_mt-returns_example :
    (woken : Mem) × (rest : List Round) × (is_open 40 woken ≡ false)
    × (ompi_sync_wait_mt sample_codes 1 40 nothing ((idle ∷ []) ++ completes ∷ []) four
        ≡ some (
          (if 0 == (trim_locked 40 woken).status 40 then 0 else 0xffff_ffff),
          trim_locked 40 woken,
          rest,
        ))
ompi_sync_wait_mt-returns_example =
    ompi_sync_wait_mt-returns sample_codes 1 40 nothing (idle ∷ []) [] completes four
      completes-IsLast refl refl

sync_wait-life_example :
    (sync_wait sample_codes 1 30 nothing
        (all_report processor sample_codes 30 ((1 ∷ []) ++ 2 ∷ []) (idle ∷ []))
        (wait_sync_init 30 (sum (1 ∷ []) + 2) (quiet false))
      ≡ some (0, completed 30 (sum (1 ∷ []) + 2) (quiet false), idle ∷ []))
    × (wait_sync_release 30 [] (completed 30 (sum (1 ∷ []) + 2) (quiet false))
        ≡ some (completed 30 (sum (1 ∷ []) + 2) (quiet false)))
    × ((completed 30 (sum (1 ∷ []) + 2) (quiet false)).trace ≡ [])
    × (wait_sync_release 30
          (quiet_rounds 3)
          (record (completed 30 (sum (1 ∷ []) + 2) (quiet false)) { uses_threads = true })
        ≡ none)
unfolding sum
sync_wait-life_example =
    sync_wait-life processor-IsAtomic sample_codes 1 nothing 30 (1 ∷ []) 2 (idle ∷ []) (quiet false)
      [] 3 refl refl (omega arith) (omega arith)
