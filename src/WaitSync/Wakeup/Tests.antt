-- ===== src/WaitSync/Wakeup/Tests.antt =====
-- The global wake-ups of three structures.
use libult.Base.{
  ◌≡◌, refl, Ptr, true, false, some, [], ◌∷◌, arith, if◌then◌else◌, has, update, ◌&&◌, ◌==◌,
  sample_codes,
}
use libult.Usage.{processor, processor-IsAtomic}
use libult.WaitSync.State.{Mem, list_lock, list_unlock}
use libult.WaitSync.Sample.{three, three-IsRing}
use libult.WaitSync.Pending.Ring.{IsRing}
use libult.WaitSync.Wakeup.{global_wakeup}
use libult.WaitSync.Wakeup.Success.{completed, global_wakeup-Success}
use libult.WaitSync.Wakeup.Complete.{signals, global_wakeup-Failed}

global_wakeup-Failed_example :
    (m' : Mem) × (global_wakeup processor sample_codes 7 4 three ≡ some m')
    × ((q : Ptr) → m'.count q ≡ (if has q (10 ∷ 20 ∷ 30 ∷ []) then 0 else three.count q))
    × ((q : Ptr) → m'.status q ≡ (if has q (10 ∷ 20 ∷ 30 ∷ []) then 7 else three.status q))
    × ((q : Ptr) → m'.signaling q ≡ (if has q (10 ∷ 20 ∷ 30 ∷ []) then false else true))
    × (m'.trace ≡ list_unlock ∷ signals (10 ∷ 20 ∷ 30 ∷ []) (list_lock ∷ []))
    × IsRing m' (10 ∷ 20 ∷ 30 ∷ [])
global_wakeup-Failed_example =
    global_wakeup-Failed processor-IsAtomic sample_codes 7 refl (10 ∷ 20 ∷ 30 ∷ []) three 3
      three-IsRing refl (omega arith)

-- The same three, where 20 is completed already.
abbrev one_done : Mem
one_done = record three { count = update (update (λ _. 0) 10 2) 30 3 }

one_done-IsRing : IsRing one_done (10 ∷ 20 ∷ 30 ∷ [])
one_done-IsRing = three-IsRing

global_wakeup-Success_example :
    (m' : Mem) × (global_wakeup processor sample_codes 0 4 one_done ≡ some m')
    × (m'.count ≡ one_done.count)
    × (m'.status ≡ one_done.status)
    × ((q : Ptr)
        → m'.signaling q
          ≡ (if has q (10 ∷ 20 ∷ 30 ∷ []) && 0 == one_done.count q then false else true))
    × (m'.trace
        ≡ list_unlock ∷ signals (completed one_done.count (10 ∷ 20 ∷ 30 ∷ [])) (list_lock ∷ []))
    × IsRing m' (10 ∷ 20 ∷ 30 ∷ [])
global_wakeup-Success_example =
    global_wakeup-Success processor-IsAtomic sample_codes (10 ∷ 20 ∷ 30 ∷ []) one_done 3
      one_done-IsRing refl (λ q. ground arith) (omega arith)
