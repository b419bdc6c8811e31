-- ===== src/WaitSync/Update.antt =====
-- src/wait_sync.h: `wait_sync_update`, and runs of it on one structure.
mod Tests
use libult.Base.{
  ℕ, ◌≡◌, ◌≢◌, refl, ◌∙◌, ap, sym, ◌+◌, ◌-◌, ◌^◌, ◌<◌, Ptr, true, false, not, List, [], ◌∷◌, ◌++◌,
  arith, ◌==◌, if◌then◌else◌, update, update_self, update-update, All, sum, Bool-cases, inl, inr,
  is_pos32, add_word, neg_word, Codes, ==_refl,
}
use libult.Usage.{add, Atomics, IsAtomic, thread_op_fetch}
use libult.Usage.Laws.{thread_op_fetch-eq}
use libult.WaitSync.State.{Mem, wait_sync_signal, wait_sync_update}

-- The completions `us`, one call for each.
unfoldable pub run_updates : Atomics → Codes → Ptr → List ℕ → Mem → Mem
run_updates at codes sync [] m = m
run_updates at codes sync (u ∷ us) m =
    run_updates at codes sync us (wait_sync_update at codes sync u codes.success m)

-- The count of one structure set.
abbrev pub counted : Ptr → ℕ → Mem → Mem
counted sync c m = record m { count = update m.count sync c }

module _ {at : Atomics} (ok : IsAtomic at) (codes : Codes) (sync : Ptr) where
  -- A success, with the count after it.
  pub wait_sync_update-success :
      (u c : ℕ) (m : Mem)
      → add_word 32 (m.count sync) (neg_word 32 u) ≡ c
      → wait_sync_update at codes sync u codes.success m
        ≡ (if 0 == c then wait_sync_signal sync (counted sync c m) else counted sync c m)
  unfolding wait_sync_update
  wait_sync_update-success u c m e =
      rw
        (
          ==_refl codes.success,
          thread_op_fetch-eq ok m.uses_threads add 32 (m.count sync) (neg_word 32 u),
          e,
        )
        (elim (Bool-cases (0 == c)) [ inl f ↦ rw f | inr f ↦ rw f ])

  -- A failure sets the state and clears the count, whatever it was, and always signals.
  pub wait_sync_update-failure :
      (u status : ℕ) (m : Mem)
      → (status == codes.success) ≡ false
      → wait_sync_update at codes sync u status m
        ≡ wait_sync_signal sync
            (record m { status = update m.status sync status; count = update m.count sync 0 })
  unfolding wait_sync_update
  wait_sync_update-failure u status m e = rw (e, ok.swap-eq (m.count sync) 0)

  -- Short of the last completion nothing but the count changes.
  pub run_updates_before :
      (us : List ℕ) (m : Mem) (c : ℕ)
      → m.count sync ≡ sum us + c
      → 0 < c
      → m.count sync < 2 ^ 31
      → run_updates at codes sync us m ≡ counted sync c m
  unfolding run_updates sum
  run_updates_before [] m c e pos lt =
      ap (λ f. record m { count = f }) (sym (update_self m.count sync c (omega arith)))
  run_updates_before (u ∷ us) m c e pos lt =
      rw (wait_sync_update-success u (sum us + c) m (omega arith)) (
        let more : (0 == sum us + c) ≡ false = ground arith in
        rw more (
          run_updates_before us (counted sync (sum us + c) m) c (ground arith) pos (ground arith)
          ∙ ap (λ f. record m { count = f }) (update-update m.count sync (sum us + c) c)))

  run_updates-append :
      (us vs : List ℕ) (m : Mem)
      → run_updates at codes sync (us ++ vs) m
        ≡ run_updates at codes sync vs (run_updates at codes sync us m)
  unfolding run_updates sum
  run_updates-append [] vs m = refl
  run_updates-append (u ∷ us) vs m =
      run_updates-append us vs (wait_sync_update at codes sync u codes.success m)

  -- Where a structure waits for `count` completions and successes that add up to it come in, in
  -- portions of which the last is not 0: until the last one nothing but the count changes and
  -- nobody is signalled, and the last one clears the count and signals, once.
  pub run_updates_countdown :
      (us : List ℕ) (u : ℕ) (m : Mem)
      → m.count sync ≡ sum us + u
      → 0 < u
      → m.count sync < 2 ^ 31
      → (run_updates at codes sync us m ≡ counted sync u m)
        × (run_updates at codes sync (us ++ u ∷ []) m ≡ wait_sync_signal sync (counted sync 0 m))
  unfolding run_updates sum
  run_updates_countdown us u m e pos lt =
      let before = run_updates_before us m u e pos lt in
      (
        before,
        run_updates-append us (u ∷ []) m
            ∙ rw before (
                wait_sync_update-success u 0 (counted sync u m) (ground arith)
                ∙ ap (λ f. wait_sync_signal sync (record m { count = f }))
                    (update-update m.count sync u 0)),
      )

  -- A success that reports more completions than are awaited makes the count negative: the waiting
  -- loops, which test `count > 0`, would end, but nobody is signalled and `signaling` stays.
  pub wait_sync_update_excess :
      (u : ℕ) (m : Mem)
      → m.count sync < u
      → u < 2 ^ 31
      → (is_pos32 ((wait_sync_update at codes sync u codes.success m).count sync) ≡ false)
        × ((wait_sync_update at codes sync u codes.success m).trace ≡ m.trace)
        × ((wait_sync_update at codes sync u codes.success m).signaling ≡ m.signaling)
  wait_sync_update_excess u m lt small =
      rw (wait_sync_update-success u (m.count sync + 2 ^ 32 - u) m (omega arith)) (
        let more : (0 == m.count sync + 2 ^ 32 - u) ≡ false = ground arith in
        rw more (ground arith, refl, refl))
