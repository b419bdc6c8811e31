-- ===== src/WaitSync/Pending/Insert.antt =====
-- The insertion appends to the ring.
use libult.Base.{
  ◌≡◌, ◌≢◌, refl, Ptr, null, false, List, [], ◌∷◌, ◌++◌, arith, ◌==◌, if◌then◌else◌, update, ◌∉◌,
  IsDistinct, IsDistinct-snoc, last, has-append, ==_refl, Bool-cases, inl, inr,
}
use libult.WaitSync.State.{Mem, list_lock, list_unlock, thread_lock, thread_unlock}
use libult.WaitSync.Pending.{insert_pending, insert_locked}
use libult.WaitSync.Pending.Chain.{Chain, Chain-append, Chain-prev_end, Chain-frame, Chain-relink}
use libult.WaitSync.Pending.Ring.{IsRing, IsRing-fields}

-- With another structure pending the four writes come to these.
insert_pending-eq :
    (sync a l : Ptr) (m : Mem)
    → m.list ≡ a
    → (a == null) ≡ false
    → m.prev a ≡ l
    → insert_pending sync m ≡ record m {
      next = update (update m.next l sync) sync a;
      prev = update (update m.prev sync l) a sync;
    }
unfolding insert_pending
insert_pending-eq sync a l m e ne p = rw (e, ne, p, ==_refl sync)

-- The links after those writes.
Chain-insert :
    (n v : Ptr → Ptr) (a sync : Ptr) (xs : List Ptr)
    → Chain n v a xs a
    → IsDistinct (a ∷ xs)
    → sync ∉ a ∷ xs
    → Chain
        (update (update n (last a xs) sync) sync a)
        (update (update v sync (last a xs)) a sync)
        a
        (xs ++ sync ∷ [])
        a
Chain-insert n v a sync xs c d out =
    Chain-append _ _ a a sync xs []
      (Chain-frame _ _ _ _ a sync xs (Chain-relink n v a a sync xs c d (ground arith))
        (λ q h. ground arith) (λ q h. ground arith))
      (ground arith, ground arith)

pub insert_pending-IsRing :
    (sync : Ptr) (xs : List Ptr) (m : Mem)
    → IsRing m xs
    → sync ≢ null
    → sync ∉ xs
    → IsRing (insert_pending sync m) (xs ++ sync ∷ [])
unfolding insert_pending
insert_pending-IsRing sync [] m r ne out = rw (r, ==_refl sync) (ground arith)
insert_pending-IsRing sync (a ∷ xs) m (e, c, d, nn) ne out =
    rw
      (insert_pending-eq sync a (last a xs) m e (ground arith)
        (Chain-prev_end m.next m.prev a a xs c))
      (
        e,
        Chain-insert m.next m.prev a sync xs c d out,
        IsDistinct-snoc sync (a ∷ xs) d out,
        rw (has-append null (a ∷ xs) (sync ∷ [])) (ground arith),
      )

-- What the insertion leaves alone.
pub insert_pending_same :
    (sync : Ptr) (m : Mem)
    → ((insert_pending sync m).count ≡ m.count)
      × ((insert_pending sync m).status ≡ m.status)
      × ((insert_pending sync m).signaling ≡ m.signaling)
      × ((insert_pending sync m).trace ≡ m.trace)
      × ((insert_pending sync m).uses_threads ≡ m.uses_threads)
unfolding insert_pending
insert_pending_same sync m = elim (Bool-cases (m.list == null)) [
  | inl e ↦ rw e (refl, refl, refl, refl, refl)
  | inr e ↦ rw e (refl, refl, refl, refl, refl)
]

-- `ompi_sync_wait_mt` puts its structure last on the ring of pending ones, where it is on no ring
-- yet; the order of the others stays, and so do all counts, states and `signaling` flags. In
-- threaded mode the change stands between a lock and an unlock of `wait_sync_lock`.
pub insert_locked-IsRing :
    (sync : Ptr) (xs : List Ptr) (m : Mem)
    → IsRing m xs
    → sync ≢ null
    → sync ∉ xs
    → IsRing (insert_locked sync m) (xs ++ sync ∷ [])
      × ((insert_locked sync m).count ≡ m.count)
      × ((insert_locked sync m).status ≡ m.status)
      × ((insert_locked sync m).signaling ≡ m.signaling)
      × ((insert_locked sync m).trace
          ≡ (if m.uses_threads then list_unlock ∷ list_lock ∷ m.trace else m.trace))
unfolding insert_locked thread_lock thread_unlock
insert_locked-IsRing sync xs m r ne out =
    let locked = thread_lock m in
    let (count, status, signaling, trace, uses) = insert_pending_same sync locked in
    let ring =
      insert_pending-IsRing sync xs locked (IsRing-fields m locked xs refl refl refl r) ne out in
    (
      IsRing-fields (insert_pending sync locked) (insert_locked sync m) (xs ++ sync ∷ []) refl refl
          refl ring,
      count,
      status,
      signaling,
      rw (uses, trace) (ground arith),
    )
