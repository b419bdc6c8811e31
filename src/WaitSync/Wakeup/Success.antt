-- ===== src/WaitSync/Wakeup/Success.antt =====
-- A global wake-up with `SUCCESS`, which the comment in src/wait_sync.h calls a no-op.
use mathlib.Core.Path.{subst}
use libult.Base.{
  ℕ, suc, ◌≡◌, refl, ◌∙◌, ap, sym, ◌^◌, ◌<◌, ◌≤◌, Ptr, true, false, ◌&&◌, Bool-cases, inl, inr,
  List, [], ◌∷◌, arith, ◌==◌, if◌then◌else◌, if_true, if_false, has, length, some, Codes,
  update_self,
}
use libult.Usage.{Atomics, IsAtomic}
use libult.WaitSync.State.{Mem, Event, list_lock, list_unlock, wait_sync_signal, wait_sync_update}
use libult.WaitSync.Update.{wait_sync_update-success}
use libult.WaitSync.Pending.Ring.{IsRing, IsRing-fields}
use libult.WaitSync.Wakeup.{global_wakeup}
use libult.WaitSync.Wakeup.Laws.{SameLinks, wake_all, global_wakeup_mt-wake_all}
use libult.WaitSync.Wakeup.Complete.{signals}

-- Those of the list that wait for nothing any more.
abbrev pub completed : (Ptr → ℕ) → List Ptr → List Ptr
completed count [] = []
completed count (x ∷ xs) = if 0 == count x then x ∷ completed count xs else completed count xs

-- No count and no state changes; the completed structures are signalled.
record Nudged (xs : List Ptr) (m m' : Mem) : Type 0 where
  count : m'.count ≡ m.count
  status : m'.status ≡ m.status
  signaling :
      (q : Ptr) → m'.signaling q ≡ (if has q xs && 0 == m.count q then false else m.signaling q)
  trace : m'.trace ≡ signals (completed m.count xs) m.trace
  links : SameLinks m m'

module _ {at : Atomics} (ok : IsAtomic at) (codes : Codes) where
  update_nothing :
      (x : Ptr) (m : Mem)
      → m.count x < 2 ^ 32
      → wait_sync_update at codes x 0 codes.success m
        ≡ (if 0 == m.count x then wait_sync_signal x m else m)
  update_nothing x m h =
      wait_sync_update-success ok codes x 0 (m.count x) m (omega arith)
      ∙ ap
          (λ f.
            if 0 == m.count x
            then wait_sync_signal x (record m { count = f })
            else record m { count = f })
          (update_self m.count x (m.count x) refl)

  -- One structure, completed or not.
  nudge_completed :
      (x : Ptr) (m : Mem)
      → m.uses_threads ≡ true
      → (0 == m.count x) ≡ true
      → Nudged (x ∷ []) m (wait_sync_signal x m)
  unfolding wait_sync_signal
  nudge_completed x m mt e = record {
    count = refl;
    status = refl;
    signaling = λ q. ground arith;
    trace = ground arith;
    links = record { next = refl; prev = refl; list = refl; uses_threads = refl };
  }

  nudge_waiting : (x : Ptr) (m : Mem) → (0 == m.count x) ≡ false → Nudged (x ∷ []) m m
  nudge_waiting x m e = record {
    count = refl;
    status = refl;
    signaling = λ q. ground arith;
    trace = ground arith;
    links = record { next = refl; prev = refl; list = refl; uses_threads = refl };
  }

  nudge :
      (x : Ptr) (m : Mem)
      → m.uses_threads ≡ true
      → m.count x < 2 ^ 32
      → Nudged (x ∷ []) m (wait_sync_update at codes x 0 codes.success m)
  nudge x m mt h = elim (Bool-cases (0 == m.count x)) [
    | inl e ↦
        subst (Nudged (x ∷ []) m) (sym (update_nothing x m h ∙ if_true (0 == m.count x) _ _ e))
          (nudge_completed x m mt e)
    | inr e ↦
        subst (Nudged (x ∷ []) m) (sym (update_nothing x m h ∙ if_false (0 == m.count x) _ _ e))
          (nudge_waiting x m e)
  ]

  completed-append :
      (count : Ptr → ℕ) (x : Ptr) (xs : List Ptr) (tr : List Event)
      → signals (completed count xs) (signals (completed count (x ∷ [])) tr)
        ≡ signals (completed count (x ∷ xs)) tr
  completed-append count x xs tr = elim (Bool-cases (0 == count x)) [ inl e ↦ rw e | inr e ↦ rw e ]

  wake_all-Nudged :
      (xs : List Ptr) (m : Mem)
      → m.uses_threads ≡ true
      → ((q : Ptr) → m.count q < 2 ^ 32)
      → Nudged xs m (wake_all at codes codes.success xs m)
  unfolding wake_all
  wake_all-Nudged [] m mt h = record {
    count = refl;
    status = refl;
    signaling = λ q. refl;
    trace = refl;
    links = record { next = refl; prev = refl; list = refl; uses_threads = refl };
  }
  wake_all-Nudged (x ∷ xs) m mt h =
      let one = nudge x m mt (h x) in
      let more =
        wake_all-Nudged xs (wait_sync_update at codes x 0 codes.success m)
          (one.links.uses_threads ∙ mt) (λ q. rw one.count (h q)) in
      record {
        count = more.count ∙ one.count;
        status = more.status ∙ one.status;
        signaling = λ q. signaling_of x xs q one more;
        trace =
            more.trace
            ∙ ap
                (λ count.
                  signals (completed count xs)
                    (wait_sync_update at codes x 0 codes.success m).trace)
                one.count
            ∙ ap (signals (completed m.count xs)) one.trace
            ∙ completed-append m.count x xs m.trace;
        links = record {
          next = more.links.next ∙ one.links.next;
          prev = more.links.prev ∙ one.links.prev;
          list = more.links.list ∙ one.links.list;
          uses_threads = more.links.uses_threads ∙ one.links.uses_threads;
        };
      }
    where
      signaling_of :
          (x : Ptr) (xs : List Ptr) (q : Ptr) {m₁ m₂ : Mem}
          → Nudged (x ∷ []) m m₁
          → Nudged xs m₁ m₂
          → m₂.signaling q ≡ (if has q (x ∷ xs) && 0 == m.count q then false else m.signaling q)
      signaling_of x xs q {m₁} one more =
          ground (arith, one.signaling q, more.signaling q, ap (λ (f : Ptr → ℕ). f q) one.count)

  -- A global wake-up with `SUCCESS`, in threaded mode and over the ring `xs`, ends and changes no
  -- count and no state. It signals exactly the structures on the ring whose count is 0 already, in
  -- the ring's order, and clears their `signaling`: it is a no-op only where there is none.
  pub global_wakeup-Success :
      (xs : List Ptr) (m : Mem) (fuel : ℕ)
      → IsRing m xs
      → m.uses_threads ≡ true
      → ((q : Ptr) → m.count q < 2 ^ 32)
      → length xs ≤ fuel
      → (m' : Mem) × (global_wakeup at codes codes.success (suc fuel) m ≡ some m')
        × (m'.count ≡ m.count)
        × (m'.status ≡ m.status)
        × ((q : Ptr)
            → m'.signaling q ≡ (if has q xs && 0 == m.count q then false else m.signaling q))
        × (m'.trace ≡ list_unlock ∷ signals (completed m.count xs) (list_lock ∷ m.trace))
        × IsRing m' xs
  unfolding global_wakeup
  global_wakeup-Success xs m fuel r mt small h =
      let locked = record m { trace = list_lock ∷ m.trace } in
      let m' = wake_all at codes codes.success xs locked in
      let n = wake_all-Nudged xs locked mt small in
      (
        record m' { trace = list_unlock ∷ m'.trace },
        if_true m.uses_threads _ _ mt
            ∙ global_wakeup_mt-wake_all ok codes codes.success xs m fuel r h,
        n.count,
        n.status,
        n.signaling,
        ap (λ tr. list_unlock ∷ tr) n.trace,
        IsRing-fields m m' xs n.links.list n.links.next n.links.prev r,
      )
