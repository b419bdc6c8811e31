-- ===== src/WaitSync/Wait/Single.antt =====
-- src/wait_sync.h: `sync_wait_st`, where the progress engine reports the completions.
use libult.Base.{
  ℕ, ◌≡◌, refl, ◌&&◌, ap, ◌∙◌, ◌+◌, ◌^◌, ◌<◌, Ptr, null, some, List, [], ◌∷◌, ◌++◌, ◌==◌, if_true,
  sum, is_pos32, arith, ==_refl, Codes,
}
use libult.Usage.{Atomics, IsAtomic}
use libult.WaitSync.State.{Mem, wait_sync_signal, wait_sync_update}
use libult.WaitSync.Update.{run_updates, run_updates_before, run_updates_countdown, counted}
use libult.WaitSync.Wait.{Round, is_open, progress_loop, listed_none, sync_wait_st}
use libult.WaitSync.Wait.Returns.{progress_loop-closed}

-- A call of the progress engine that reports a success with `u` completions.
abbrev pub reports : Atomics → Codes → Ptr → ℕ → Round
reports at codes sync u = record {
  others = wait_sync_update at codes sync u codes.success;
  in_progress = 0;
}

abbrev pub all_report : Atomics → Codes → Ptr → List ℕ → List Round → List Round
all_report at codes sync [] more = more
all_report at codes sync (u ∷ us) more = reports at codes sync u ∷ all_report at codes sync us more

module _ {at : Atomics} (ok : IsAtomic at) (codes : Codes) (sync : Ptr) where
  count_left :
      (u c : ℕ) (m : Mem)
      → m.count sync ≡ u + c
      → 0 < c
      → m.count sync < 2 ^ 31
      → (wait_sync_update at codes sync u codes.success m).count sync ≡ c
  unfolding run_updates sum
  count_left u c m e pos lt =
      ap (λ (v : Mem). v.count sync)
        (run_updates_before ok codes sync (u ∷ []) m c (omega arith) pos lt)
      ∙ if_true (sync == sync) c (m.count sync) (==_refl sync)

  progress_loop-countdown :
      (us : List ℕ) (u : ℕ) (more : List Round) (m : Mem)
      → m.count sync ≡ sum us + u
      → 0 < u
      → m.count sync < 2 ^ 31
      → progress_loop sync (all_report at codes sync (us ++ u ∷ []) more) m
        ≡ some (run_updates at codes sync (us ++ u ∷ []) m, more)
  unfolding progress_loop run_updates sum wait_sync_signal
  progress_loop-countdown [] u more m e pos lt =
      if_true (is_open sync m) _ _ (ground arith)
      ∙ progress_loop-closed sync more (wait_sync_update at codes sync u codes.success m) (
          ap (λ (v : Mem). is_pos32 (v.count sync))
            (run_updates_countdown ok codes sync [] u m e pos lt).1
          ∙ ap is_pos32 (if_true (sync == sync) 0 (m.count sync) (==_refl sync)))
  progress_loop-countdown (v ∷ vs) u more m e pos lt =
      let left = count_left v (sum vs + u) m (omega arith) (omega arith) lt in
      if_true (is_open sync m) _ _ (ground arith)
      ∙ progress_loop-countdown vs u more (wait_sync_update at codes sync v codes.success m) left
          pos (omega arith)

  -- Where the list is empty, a structure waits for `count` completions and the calls of the progress engine report
  -- successes that add up to it, the last of them not 0, `sync_wait_st` makes exactly these calls and
  -- returns the state of the structure. Memory is then as the last completion leaves it, with the
  -- count 0, and the list is empty.
  pub sync_wait_st-countdown :
      (us : List ℕ) (u : ℕ) (more : List Round) (m : Mem)
      → m.list ≡ null
      → m.next sync ≡ null
      → m.count sync ≡ sum us + u
      → 0 < u
      → m.count sync < 2 ^ 31
      → sync_wait_st sync (all_report at codes sync (us ++ u ∷ []) more) m
        ≡ some
            (m.status sync, record (wait_sync_signal sync (counted sync 0 m)) { list = null }, more)
  unfolding sync_wait_st wait_sync_signal
  sync_wait_st-countdown us u more m alone fresh e pos lt =
      if_true (null == m.list && null == m.next sync) _ _ (rw (alone, fresh) refl)
      ∙ ap (listed_none sync) (
          progress_loop-countdown us u more (record m { list = sync }) e pos lt
          ∙ ap (λ v. some (v, more))
              (run_updates_countdown ok codes sync us u (record m { list = sync }) e pos lt).1)
