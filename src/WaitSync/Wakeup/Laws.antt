-- ===== src/WaitSync/Wakeup/Laws.antt =====
-- The walk of the threaded wake-up visits every structure on the ring, once, and ends.
use libult.Base.{
  ℕ, zero, suc, ◌≡◌, refl, ◌∙◌, ap, ◌≤◌, Ptr, null, false, not, List, [], ◌∷◌, arith, ◌==◌, ◌∉◌,
  length, Bool-cases, inl, inr, some, neg_word, Codes, ==_refl, if_true,
}
use libult.Usage.{add, thread_op_fetch, Atomics, IsAtomic}
use libult.WaitSync.State.{Mem, list_lock, list_unlock, wait_sync_signal, wait_sync_update}
use libult.WaitSync.Update.{counted}
use libult.WaitSync.Pending.Chain.{Chain}
use libult.WaitSync.Pending.Ring.{IsRing}
use libult.WaitSync.Wakeup.{mutex_unlock_list, wakeup_mt_loop, global_wakeup_mt}

-- One update after another, in the order of the list.
unfoldable pub wake_all : Atomics → Codes → ℕ → List Ptr → Mem → Mem
wake_all at codes status [] m = m
wake_all at codes status (x ∷ xs) m =
    wake_all at codes status xs (wait_sync_update at codes x 0 status m)

-- The same links, list and mode.
pub record SameLinks (m m' : Mem) : Type 0 where
  pub next : m'.next ≡ m.next
  pub prev : m'.prev ≡ m.prev
  pub list : m'.list ≡ m.list
  pub uses_threads : m'.uses_threads ≡ m.uses_threads

wait_sync_signal-SameLinks :
    (x : Ptr) (m m' : Mem) → SameLinks m m' → SameLinks m (wait_sync_signal x m')
unfolding wait_sync_signal
wait_sync_signal-SameLinks x m m' s = record {
  next = s.next;
  prev = s.prev;
  list = s.list;
  uses_threads = s.uses_threads;
}

module _ {at : Atomics} (ok : IsAtomic at) (codes : Codes) (status : ℕ) where
  pub wait_sync_update-SameLinks :
      (x : Ptr) (u : ℕ) (m : Mem) → SameLinks m (wait_sync_update at codes x u status m)
  unfolding wait_sync_update
  wait_sync_update-SameLinks x u m = elim (Bool-cases (status == codes.success)) [
    | inl e ↦ rw e (
        let (cell, result) = thread_op_fetch at m.uses_threads add 32 (m.count x) (neg_word 32 u) in
        let counted_same : SameLinks m (counted x cell m) = record {
          next = refl;
          prev = refl;
          list = refl;
          uses_threads = refl;
        } in
        elim (Bool-cases (not (0 == result))) [
          | inl f ↦ rw f counted_same
          | inr f ↦ rw f (wait_sync_signal-SameLinks x m (counted x cell m) counted_same)
        ])
    | inr e ↦ rw e (
        wait_sync_signal-SameLinks x m _
          (record { next = refl; prev = refl; list = refl; uses_threads = refl }))
  ]

  -- The last round of the loop, and one before it.
  wakeup_mt_loop_last :
      (fuel : ℕ) (a b : Ptr) (m : Mem)
      → (a == null) ≡ false
      → m.next a ≡ b
      → m.list ≡ b
      → wakeup_mt_loop at codes status (suc fuel) a m
        ≡ some (wait_sync_update at codes a 0 status m)
  unfolding wakeup_mt_loop
  wakeup_mt_loop_last fuel a b m e f g =
      let links = wait_sync_update-SameLinks a 0 m in
      rw (e, links.next, links.list, f, g, ==_refl b)

  wakeup_mt_loop_more :
      (fuel : ℕ) (a x b : Ptr) (m : Mem)
      → (a == null) ≡ false
      → m.next a ≡ x
      → m.list ≡ b
      → (x == b) ≡ false
      → wakeup_mt_loop at codes status (suc fuel) a m
        ≡ wakeup_mt_loop at codes status fuel x (wait_sync_update at codes a 0 status m)
  unfolding wakeup_mt_loop
  wakeup_mt_loop_more fuel a x b m e f g h =
      let links = wait_sync_update-SameLinks a 0 m in rw (e, links.next, links.list, f, g, h)

  wakeup_mt_loop-eq :
      (fuel : ℕ) (n v : Ptr → Ptr) (a b : Ptr) (xs : List Ptr) (m : Mem)
      → Chain n v a xs b
      → m.next ≡ n
      → m.list ≡ b
      → null ∉ a ∷ xs
      → b ∉ xs
      → length xs ≤ fuel
      → wakeup_mt_loop at codes status (suc fuel) a m ≡ some (wake_all at codes status (a ∷ xs) m)
  unfolding wake_all
  wakeup_mt_loop-eq fuel n v a b [] m (e, f) en el nn nb h =
      wakeup_mt_loop_last fuel a b m (ground arith) (rw en e) el
  wakeup_mt_loop-eq zero n v a b (x ∷ xs) m (e, f, c) en el nn nb h = absurd (omega arith)
  wakeup_mt_loop-eq (suc fuel) n v a b (x ∷ xs) m (e, f, c) en el nn nb h =
      let links = wait_sync_update-SameLinks a 0 m in
      wakeup_mt_loop_more (suc fuel) a x b m (ground arith) (rw en e) el (ground arith)
      ∙ wakeup_mt_loop-eq fuel n v x b xs (wait_sync_update at codes a 0 status m) c
          (links.next ∙ en) (links.list ∙ el) (ground arith) (ground arith) (omega arith)

  pub global_wakeup_mt-wake_all :
      (xs : List Ptr) (m : Mem) (fuel : ℕ)
      → IsRing m xs
      → length xs ≤ fuel
      → global_wakeup_mt at codes status (suc fuel) m
        ≡ some (
            let m' = wake_all at codes status xs (record m { trace = list_lock ∷ m.trace }) in
            record m' { trace = list_unlock ∷ m'.trace })
  unfolding global_wakeup_mt wakeup_mt_loop wake_all
  global_wakeup_mt-wake_all [] m fuel e h =
      ap mutex_unlock_list (if_true (m.list == null) _ _ (ground arith))
  global_wakeup_mt-wake_all (a ∷ xs) m fuel (e, c, d, nn) h =
      let locked = record m { trace = list_lock ∷ m.trace } in
      ap mutex_unlock_list (
        ap (λ p. wakeup_mt_loop at codes status (suc fuel) p locked) e
        ∙ wakeup_mt_loop-eq fuel m.next m.prev a a xs locked c refl e nn d.0 (omega arith))
