-- ===== src/WaitSync/Pending/Tests.antt =====
-- src/impl/base/wait_sync.c: three structures come to the ring and leave it, and the theorems there.
use libult.Base.{◌≡◌, refl, true, [], ◌∷◌, arith}
use libult.WaitSync.State.{mutex_lock, mutex_unlock, cond_signal, list_lock, list_unlock}
use libult.WaitSync.Pending.{insert_pending, insert_locked, unlink, pass_duties, trim_locked}
use libult.WaitSync.Sample.{quiet, three, three-IsRing}
use libult.WaitSync.Pending.Ring.{IsRing}
use libult.WaitSync.Pending.Insert.{insert_locked-IsRing}
use libult.WaitSync.Pending.Remove.{trim_locked-IsRing}

arrivals : (insert_pending 30 (insert_pending 20 (insert_pending 10 (quiet true)))).prev 10 ≡ 30
unfolding insert_pending
arrivals = refl

-- The last one to leave empties the list.
departures : (pass_duties 10 (unlink 10 (insert_pending 10 (quiet true)))).list ≡ 0
unfolding insert_pending unlink pass_duties
departures = refl

insert_locked-IsRing_example :
    IsRing (insert_locked 40 three) (10 ∷ 20 ∷ 30 ∷ 40 ∷ [])
    × ((insert_locked 40 three).count ≡ three.count)
    × ((insert_locked 40 three).status ≡ three.status)
    × ((insert_locked 40 three).signaling ≡ three.signaling)
    × ((insert_locked 40 three).trace ≡ list_unlock ∷ list_lock ∷ [])
insert_locked-IsRing_example =
    insert_locked-IsRing 40 (10 ∷ 20 ∷ 30 ∷ []) three three-IsRing (omega arith) refl

trim_locked-IsRing_example :
    IsRing (trim_locked 10 three) (20 ∷ 30 ∷ [])
    × ((trim_locked 10 three).trace
        ≡ list_unlock ∷ mutex_unlock 20 ∷ cond_signal 20 ∷ mutex_lock 20 ∷ list_lock ∷ [])
    × ((trim_locked 10 three).count ≡ three.count)
    × ((trim_locked 10 three).status ≡ three.status)
    × ((trim_locked 10 three).signaling ≡ three.signaling)
trim_locked-IsRing_example = trim_locked-IsRing 10 [] (20 ∷ 30 ∷ []) three three-IsRing refl
