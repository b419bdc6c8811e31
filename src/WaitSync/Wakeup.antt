-- ===== src/WaitSync/Wakeup.antt =====
-- src/impl/base/wait_sync.c: the two global wake-ups, which walk the list of pending structures and
-- complete each one. `none` means that the fuel ran out: in the code, a walk that goes on.
pub mod Laws
pub mod Complete
pub mod Success
mod Tests
use libult.Base.{ℕ, zero, suc, Ptr, null, Option, none, some, ◌∷◌, ◌==◌, if◌then◌else◌, Codes}
use libult.Usage.{Atomics}
use libult.WaitSync.State.{Mem, list_lock, list_unlock, wait_sync_update}

-- The unlock behind the loop.
abbrev mutex_unlock_list : Option Mem → Option Mem
mutex_unlock_list none = none
mutex_unlock_list (some m) = some (record m { trace = list_unlock ∷ m.trace })

module _ (at : Atomics) (codes : Codes) (status : ℕ) where
  wakeup_st_loop : ℕ → Ptr → Mem → Option Mem
  wakeup_st_loop zero sync m = none
  wakeup_st_loop (suc fuel) sync m =
      let m' = wait_sync_update at codes sync 0 status m in
      let rest = wakeup_st_loop fuel (m'.next sync) m' in if sync == null then some m else rest

  -- `threads_base_wait_sync_global_wakeup_st`
  pub global_wakeup_st : ℕ → Mem → Option Mem
  unfolding wakeup_st_loop
  global_wakeup_st fuel m = wakeup_st_loop fuel m.list m

  wakeup_mt_loop : ℕ → Ptr → Mem → Option Mem
  wakeup_mt_loop zero sync m = none
  wakeup_mt_loop (suc fuel) sync m =
      let m' = wait_sync_update at codes sync 0 status m in
      let rest = wakeup_mt_loop fuel (m'.next sync) m' in
      if sync == null then some m else if m'.next sync == m'.list then some m' else rest

  -- `threads_base_wait_sync_global_wakeup_mt`
  pub global_wakeup_mt : ℕ → Mem → Option Mem
  unfolding wakeup_mt_loop
  global_wakeup_mt fuel m =
      mutex_unlock_list (wakeup_mt_loop fuel m.list (record m { trace = list_lock ∷ m.trace }))

  -- `wait_sync_global_wakeup`
  pub global_wakeup : ℕ → Mem → Option Mem
  unfolding global_wakeup_st global_wakeup_mt
  global_wakeup fuel m = if m.uses_threads then global_wakeup_mt fuel m else global_wakeup_st fuel m
