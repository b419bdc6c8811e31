-- ===== src/WaitSync/Wait.antt =====
-- src/impl/base/wait_sync.c and src/wait_sync.h: `ompi_sync_wait_mt` and `sync_wait_st`, seen from the
-- thread that waits. What the other threads and the progress engine do while it holds no lock, or
-- sleeps, is any function on memory; how many others drive the progress engine then comes with it.
pub mod Returns
pub mod Single
pub mod Life
mod Tests
use libult.Base.{
  ℕ, Ptr, null, Bool, true, false, not, ◌&&◌, Option, none, some, List, [], ◌∷◌, ◌==◌, leb,
  if◌then◌else◌, update, is_pos32, Codes,
}
use libult.WaitSync.State.{Mem, Event, mutex_lock, mutex_unlock, sleep, cond_destroy, mutex_destroy}
use libult.WaitSync.Pending.{insert_locked, trim_locked}

-- What happens meanwhile.
pub record Round : Type 0 where
  pub others : Mem → Mem
  pub in_progress : ℕ  -- `num_thread_in_progress` without the waiting thread

-- What happens between the places of `ompi_sync_wait_mt` named.
pub record Meanwhile : Type 0 where
  pub enter : Mem → Mem  -- before the structure's lock is taken
  pub list_lock : Mem → Mem  -- before the lock of the list is taken
  pub listed : Round  -- behind the insertion
  pub trim : Mem → Mem  -- before the lock of the list is taken again
  pub leave : Mem → Mem  -- before the state is read

-- `sync->count > 0`
abbrev pub is_open : Ptr → Mem → Bool
is_open sync m = is_pos32 (m.count sync)

abbrev pub calls : Event → Mem → Mem
calls e m = record m { trace = e ∷ m.trace }

-- `while (sync->count > 0) progress();`. `none`: the wait outlasts the rounds.
unfoldable pub progress_loop : Ptr → List Round → Mem → Option (Mem × List Round)
progress_loop sync [] m = if is_open sync m then none else some (m, [])
progress_loop sync (r ∷ rounds) m =
    let rest = progress_loop sync rounds (r.others m) in
    if is_open sync m then rest else some (m, r ∷ rounds)

-- From `check_status` to `i_am_done`, where `in_progress` others drive the progress engine.
unfoldable pub check_status :
    (max_in_progress : ℕ) → Ptr → (in_progress : ℕ) → List Round → Mem → Option (Mem × List Round)
unfolding progress_loop
check_status max sync n [] m =
    if not (sync == m.list) && leb max n
    then none
    else progress_loop sync [] (calls (mutex_unlock sync) m)
check_status max sync n (r ∷ rounds) m =
    let woken = r.others (calls (sleep sync) m) in
    let again = check_status max sync r.in_progress rounds woken in
    if not (sync == m.list) && leb max n
    then if is_open sync woken then again else some (calls (mutex_unlock sync) woken, rounds)
    else progress_loop sync (r ∷ rounds) (calls (mutex_unlock sync) m)

-- `(0 == sync->status) ? SUCCESS : ERROR`
abbrev pub result : Codes → Ptr → Mem → ℕ
result codes sync m = if 0 == m.status sync then codes.success else codes.error

-- From `i_am_done` on.
abbrev pub i_am_done :
    Codes → Ptr → Meanwhile → Option (Mem × List Round) → Option (ℕ × Mem × List Round)
i_am_done codes sync mean none = none
i_am_done codes sync mean (some (m, rounds)) =
    let m = mean.leave (trim_locked sync (mean.trim m)) in some (result codes sync m, m, rounds)

-- `ompi_sync_wait_mt`
unfoldable pub ompi_sync_wait_mt :
    Codes
    → (max_in_progress : ℕ) → Ptr
    → Meanwhile
    → List Round
    → Mem
    → Option (ℕ × Mem × List Round)
unfolding check_status
ompi_sync_wait_mt codes max sync mean rounds m =
    if is_open sync m
    then (let m = calls (mutex_lock sync) (mean.enter m) in
        if is_open sync m
        then (let m = mean.listed.others (insert_locked sync (mean.list_lock m)) in
            i_am_done codes sync mean (check_status max sync mean.listed.in_progress rounds m))
        else (let m = calls (mutex_unlock sync) m in some (result codes sync m, m, rounds)))
    else some (result codes sync m, m, rounds)

-- The end of `sync_wait_st`
abbrev pub listed_none : Ptr → Option (Mem × List Round) → Option (ℕ × Mem × List Round)
listed_none sync none = none
listed_none sync (some (m, rounds)) = some (m.status sync, record m { list = null }, rounds)

-- `sync_wait_st`. `none`: one of the two assertions at its beginning fails, and the process ends, or the
-- wait outlasts the rounds.
unfoldable pub sync_wait_st : Ptr → List Round → Mem → Option (ℕ × Mem × List Round)
unfolding progress_loop
sync_wait_st sync rounds m =
    if null == m.list && null == m.next sync
    then listed_none sync (progress_loop sync rounds (record m { list = sync }))
    else none

-- `SYNC_WAIT`
unfoldable pub sync_wait :
    Codes
    → (max_in_progress : ℕ) → Ptr
    → Meanwhile
    → List Round
    → Mem
    → Option (ℕ × Mem × List Round)
unfolding ompi_sync_wait_mt sync_wait_st
sync_wait codes max sync mean rounds m =
    if m.uses_threads
    then ompi_sync_wait_mt codes max sync mean rounds m
    else sync_wait_st sync rounds m

-- The loop of `WAIT_SYNC_RELEASE`, with what the others do in each round, and what stands behind it.
-- `none`: the loop outlasts the rounds.
unfoldable pub release_loop : Ptr → List (Mem → Mem) → Mem → Option Mem
release_loop sync [] m =
    if m.signaling sync
    then none
    else some (calls (mutex_destroy sync) (calls (cond_destroy sync) m))
release_loop sync (others ∷ rounds) m =
    let rest = release_loop sync rounds (others m) in
    if m.signaling sync
    then rest
    else some (calls (mutex_destroy sync) (calls (cond_destroy sync) m))

-- `WAIT_SYNC_RELEASE`
unfoldable pub wait_sync_release : Ptr → List (Mem → Mem) → Mem → Option Mem
unfolding release_loop
wait_sync_release sync rounds m = if m.uses_threads then release_loop sync rounds m else some m
