-- ===== src/WaitSync/Wakeup/Complete.antt =====
-- What a global wake-up leaves behind.
use libult.Base.{
  ℕ, suc, ◌≡◌, refl, ◌∙◌, ap, ◌≤◌, Ptr, true, false, List, [], ◌∷◌, arith, ◌==◌, if◌then◌else◌, has,
  length, some, Codes, if_true,
}
use libult.Usage.{Atomics, IsAtomic}
use libult.WaitSync.State.{
  Mem, Event, mutex_lock, mutex_unlock, cond_signal, list_lock, list_unlock, wait_sync_signal,
  wait_sync_update,
}
use libult.WaitSync.Update.{wait_sync_update-failure}
use libult.WaitSync.Pending.Ring.{IsRing, IsRing-fields}
use libult.WaitSync.Wakeup.{global_wakeup}
use libult.WaitSync.Wakeup.Laws.{wake_all, SameLinks, global_wakeup_mt-wake_all}

-- A signal for each structure of the list, in its order.
abbrev pub signals : List Ptr → List Event → List Event
signals [] tr = tr
signals (x ∷ xs) tr = signals xs (mutex_unlock x ∷ cond_signal x ∷ mutex_lock x ∷ tr)

-- The structures `xs` are completed with a failure, each is signalled once, in order, and nothing
-- else is touched.
pub record Failed (status : ℕ) (xs : List Ptr) (m m' : Mem) : Type 0 where
  pub count : (q : Ptr) → m'.count q ≡ (if has q xs then 0 else m.count q)
  pub status_of : (q : Ptr) → m'.status q ≡ (if has q xs then status else m.status q)
  pub signaling : (q : Ptr) → m'.signaling q ≡ (if has q xs then false else m.signaling q)
  pub trace : m'.trace ≡ signals xs m.trace
  pub links : SameLinks m m'

module _ {at : Atomics} (ok : IsAtomic at) (codes : Codes) (status : ℕ)
    (bad : (status == codes.success) ≡ false) where
  update-Failed :
      (x u : Ptr) (m : Mem)
      → m.uses_threads ≡ true
      → Failed status (x ∷ []) m (wait_sync_update at codes x u status m)
  unfolding wait_sync_signal
  update-Failed x u m mt = rw (wait_sync_update-failure ok codes x u status m bad) (record {
    count = λ q. ground arith;
    status_of = λ q. ground arith;
    signaling = λ q. ground arith;
    trace = ground arith;
    links = record { next = refl; prev = refl; list = refl; uses_threads = refl };
  })

  wake_all-Failed :
      (xs : List Ptr) (m : Mem)
      → m.uses_threads ≡ true
      → Failed status xs m (wake_all at codes status xs m)
  unfolding wake_all
  wake_all-Failed [] m mt = record {
    count = λ q. refl;
    status_of = λ q. refl;
    signaling = λ q. refl;
    trace = refl;
    links = record { next = refl; prev = refl; list = refl; uses_threads = refl };
  }
  wake_all-Failed (x ∷ xs) m mt =
      let m' = wait_sync_update at codes x 0 status m in
      let one = update-Failed x 0 m mt in
      let more = wake_all-Failed xs m' (one.links.uses_threads ∙ mt) in
      record {
        count = λ q. ground (arith, one.count q, more.count q);
        status_of = λ q. ground (arith, one.status_of q, more.status_of q);
        signaling = λ q. ground (arith, one.signaling q, more.signaling q);
        trace = more.trace ∙ ap (signals xs) one.trace;
        links = record {
          next = more.links.next ∙ one.links.next;
          prev = more.links.prev ∙ one.links.prev;
          list = more.links.list ∙ one.links.list;
          uses_threads = more.links.uses_threads ∙ one.links.uses_threads;
        };
      }

  -- A global wake-up with a failure, in threaded mode and over the ring `xs`, ends. Under
  -- `wait_sync_lock` it sets the count of each structure on the ring to 0 and its state to the
  -- failure, signals each exactly once, in the ring's order, and clears its `signaling`; structures
  -- off the ring keep all that, and the ring stays as it is.
  pub global_wakeup-Failed :
      (xs : List Ptr) (m : Mem) (fuel : ℕ)
      → IsRing m xs
      → m.uses_threads ≡ true
      → length xs ≤ fuel
      → (m' : Mem) × (global_wakeup at codes status (suc fuel) m ≡ some m')
        × ((q : Ptr) → m'.count q ≡ (if has q xs then 0 else m.count q))
        × ((q : Ptr) → m'.status q ≡ (if has q xs then status else m.status q))
        × ((q : Ptr) → m'.signaling q ≡ (if has q xs then false else m.signaling q))
        × (m'.trace ≡ list_unlock ∷ signals xs (list_lock ∷ m.trace))
        × IsRing m' xs
  unfolding global_wakeup
  global_wakeup-Failed xs m fuel r mt h =
      let locked = record m { trace = list_lock ∷ m.trace } in
      let m' = wake_all at codes status xs locked in
      let f = wake_all-Failed xs locked mt in
      (
        record m' { trace = list_unlock ∷ m'.trace },
        if_true m.uses_threads _ _ mt ∙ global_wakeup_mt-wake_all ok codes status xs m fuel r h,
        f.count,
        f.status_of,
        f.signaling,
        ap (λ tr. list_unlock ∷ tr) f.trace,
        IsRing-fields m m' xs f.links.list f.links.next f.links.prev r,
      )
