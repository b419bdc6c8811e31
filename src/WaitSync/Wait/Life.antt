-- ===== src/WaitSync/Wait/Life.antt =====
-- src/wait_sync.h: a structure from WAIT_SYNC_INIT over SYNC_WAIT to WAIT_SYNC_RELEASE, where no threads are
-- in use.
use libult.Base.{
  ℕ, zero, suc, ◌≡◌, refl, ap, ◌∙◌, ◌+◌, ◌^◌, ◌<◌, Ptr, null, true, false, not, none, some, List,
  [], ◌∷◌, ◌++◌, ◌==◌, if_true, if_false, sum, arith, ==_refl, Codes,
}
use libult.Usage.{Atomics, IsAtomic}
use libult.WaitSync.State.{Mem, wait_sync_init, wait_sync_signal}
use libult.WaitSync.Update.{counted}
use libult.WaitSync.Wait.{Round, Meanwhile, sync_wait, release_loop, wait_sync_release}
use libult.WaitSync.Wait.Single.{all_report, sync_wait_st-countdown}

-- Memory after the structure's completion without threads.
abbrev pub completed : Ptr → ℕ → Mem → Mem
completed sync c m = record (counted sync 0 (wait_sync_init sync c m)) { list = null }

-- Rounds in which nobody writes.
abbrev pub quiet_rounds : ℕ → List (Mem → Mem)
quiet_rounds zero = []
quiet_rounds (suc n) = (λ m. m) ∷ quiet_rounds n

release_stuck :
    (n : ℕ) (sync : Ptr) (m : Mem)
    → m.signaling sync ≡ true
    → release_loop sync (quiet_rounds n) m ≡ none
unfolding release_loop
release_stuck zero sync m e = if_true (m.signaling sync) _ _ e
release_stuck (suc n) sync m e = if_true (m.signaling sync) _ _ e ∙ release_stuck n sync m e

-- Without threads, there is no signal and no release.
signal_off : (sync : Ptr) (m : Mem) → m.uses_threads ≡ false → wait_sync_signal sync m ≡ m
unfolding wait_sync_signal
signal_off sync m off = rw off refl

release_off :
    (sync : Ptr) (rounds : List (Mem → Mem)) (m : Mem)
    → m.uses_threads ≡ false
    → wait_sync_release sync rounds m ≡ some m
unfolding wait_sync_release
release_off sync rounds m off = if_false m.uses_threads _ _ off

release_on :
    (n : ℕ) (sync : Ptr) (m : Mem)
    → m.uses_threads ≡ true
    → m.signaling sync ≡ true
    → wait_sync_release sync (quiet_rounds n) m ≡ none
unfolding wait_sync_release
release_on n sync m on e = if_true m.uses_threads _ _ on ∙ release_stuck n sync m e

-- What WAIT_SYNC_INIT leaves.
initial_fields :
    (sync : Ptr) (c : ℕ) (m : Mem)
    → m.uses_threads ≡ false
    → ((wait_sync_init sync c m).count sync ≡ c)
      × ((wait_sync_init sync c m).status sync ≡ 0)
      × ((wait_sync_init sync c m).signaling sync ≡ not (0 == c))
      × ((wait_sync_init sync c m).uses_threads ≡ false)
      × ((wait_sync_init sync c m).trace ≡ m.trace)
      × ((wait_sync_init sync c m).list ≡ m.list)
      × ((wait_sync_init sync c m).next sync ≡ null)
unfolding wait_sync_init
initial_fields sync c m off = (
  if_true (sync == sync) _ _ (==_refl sync),
  if_true (sync == sync) _ _ (==_refl sync),
  if_true (sync == sync) _ _ (==_refl sync),
  off,
  if_false m.uses_threads _ _ off,
  refl,
  if_true (sync == sync) _ _ (==_refl sync),
)

module _ {at : Atomics} (ok : IsAtomic at) (codes : Codes) (max : ℕ) (mean : Meanwhile) (sync : Ptr)
    (us : List ℕ) (u : ℕ) (more : List Round) where
  sync_wait_off :
      (m : Mem)
      → m.uses_threads ≡ false
      → m.list ≡ null
      → m.next sync ≡ null
      → m.count sync ≡ sum us + u
      → 0 < u
      → m.count sync < 2 ^ 31
      → sync_wait codes max sync mean (all_report at codes sync (us ++ u ∷ []) more) m
        ≡ some (m.status sync, record (counted sync 0 m) { list = null }, more)
  unfolding sync_wait
  sync_wait_off m off alone fresh count pos lt =
      if_false m.uses_threads _ _ off
      ∙ sync_wait_st-countdown ok codes sync us u more m alone fresh count pos lt
      ∙ ap (λ (v : Mem). some (m.status sync, record v { list = null }, more))
          (signal_off sync (counted sync 0 m) off)

  -- A structure without threads: after WAIT_SYNC_INIT with a positive count, where no structure is on
  -- the list, and where the calls of the progress engine report successes that add up to it, the last
  -- of them not 0, SYNC_WAIT passes its assertions, makes these calls and returns 0, with the count 0 and the list empty; WAIT_SYNC_RELEASE then does nothing, and
  -- none of them makes a call of the backend. The signaling flag is still set: if the switch is
  -- turned on before WAIT_SYNC_RELEASE, its loop does not end, however many rounds it is given in
  -- which nobody else writes.
  pub sync_wait-life :
      (m : Mem) (rounds : List (Mem → Mem)) (n : ℕ)
      → m.uses_threads ≡ false
      → m.list ≡ null
      → 0 < u
      → sum us + u < 2 ^ 31
      → (sync_wait codes max sync mean
            (all_report at codes sync (us ++ u ∷ []) more)
            (wait_sync_init sync (sum us + u) m)
          ≡ some (0, completed sync (sum us + u) m, more))
        × (wait_sync_release sync rounds (completed sync (sum us + u) m)
            ≡ some (completed sync (sum us + u) m))
        × ((completed sync (sum us + u) m).trace ≡ m.trace)
        × (wait_sync_release sync
              (quiet_rounds n)
              (record (completed sync (sum us + u) m) { uses_threads = true })
            ≡ none)
  sync_wait-life m rounds n off alone pos lt =
      let m0 = wait_sync_init sync (sum us + u) m in
      let (count, status, flag, threads, trace, list, next) =
        initial_fields sync (sum us + u) m off in
      let c = completed sync (sum us + u) m in
      (
        sync_wait_off m0 threads (list ∙ alone) next count pos (rw count lt)
            ∙ ap (λ k. some (k, completed sync (sum us + u) m, more)) status,
        release_off sync rounds c threads,
        trace,
        release_on n sync (record c { uses_threads = true }) refl (flag ∙ ground arith),
      )
