-- ===== src/WaitSync/State.antt =====
-- src/wait_sync.h and the macros of src/impl/base/wait_sync.c: the structures that are waited for,
-- the globals, and the operations on one structure. Memory holds one map for each field of
-- `ompi_wait_sync_t`. A call into the threading backend is an entry of `trace`, the latest first.
use libult.Base.{
  ℕ, Ptr, null, Bool, false, not, List, ◌∷◌, ◌==◌, if◌then◌else◌, update, neg_word, Codes,
}
use libult.Usage.{add, Atomics, thread_op_fetch}

-- What is asked of the backend. An address is that of the structure whose `lock` or `condition` is
-- meant; `list_lock` and `list_unlock` are on `wait_sync_lock`.
pub data Event : Type 0 where
  cond_init : Ptr → Event
  mutex_init : Ptr → Event
  mutex_lock : Ptr → Event
  mutex_unlock : Ptr → Event
  cond_signal : Ptr → Event
  sleep : Ptr → Event  -- `thread_internal_cond_wait`
  cond_destroy : Ptr → Event
  mutex_destroy : Ptr → Event
  list_lock : Event
  list_unlock : Event

pub record Mem : Type 0 where
  pub count : Ptr → ℕ  -- atomic_int32_t
  pub status : Ptr → ℕ  -- int32_t
  pub next : Ptr → Ptr
  pub prev : Ptr → Ptr
  pub signaling : Ptr → Bool
  pub uses_threads : Bool
  pub list : Ptr  -- threads_base_wait_sync_list
  pub trace : List Event

-- `WAIT_SYNC_INIT`
unfoldable pub wait_sync_init : Ptr → ℕ → Mem → Mem
wait_sync_init sync c m = record m {
  count = update m.count sync c;
  next = update m.next sync null;
  prev = update m.prev sync null;
  status = update m.status sync 0;
  signaling = update m.signaling sync (not (0 == c));
  trace = if m.uses_threads then mutex_init sync ∷ cond_init sync ∷ m.trace else m.trace;
}

-- `WAIT_SYNC_SIGNAL`: nothing unless threads are in use.
unfoldable pub wait_sync_signal : Ptr → Mem → Mem
wait_sync_signal sync m = record m {
  trace =
      if m.uses_threads
      then mutex_unlock sync ∷ cond_signal sync ∷ mutex_lock sync ∷ m.trace
      else m.trace;
  signaling = if m.uses_threads then update m.signaling sync false else m.signaling;
}

-- `WAIT_SYNC_PASS_OWNERSHIP`
unfoldable pub pass_ownership : Ptr → Mem → Mem
pass_ownership who m = record m {
  trace = mutex_unlock who ∷ cond_signal who ∷ mutex_lock who ∷ m.trace;
}

-- `WAIT_SYNC_RELEASE_NOWAIT`
unfoldable pub wait_sync_release_nowait : Ptr → Mem → Mem
wait_sync_release_nowait sync m = record m {
  trace = if m.uses_threads then mutex_destroy sync ∷ cond_destroy sync ∷ m.trace else m.trace;
}

-- `THREAD_LOCK(&wait_sync_lock)` and `THREAD_UNLOCK(&wait_sync_lock)`
unfoldable pub thread_lock : Mem → Mem
thread_lock m = record m { trace = if m.uses_threads then list_lock ∷ m.trace else m.trace }

unfoldable pub thread_unlock : Mem → Mem
thread_unlock m = record m { trace = if m.uses_threads then list_unlock ∷ m.trace else m.trace }

module _ (at : Atomics) (codes : Codes) where
  -- `wait_sync_update`. The write barrier has no effect where steps happen in program order.
  unfoldable pub wait_sync_update : Ptr → (updates status : ℕ) → Mem → Mem
  wait_sync_update sync updates status m =
      if status == codes.success
      then (let (cell, result) =
            thread_op_fetch at m.uses_threads add 32 (m.count sync) (neg_word 32 updates) in
          let m' = record m { count = update m.count sync cell } in
          if not (0 == result) then m' else wait_sync_signal sync m')
      else wait_sync_signal sync (record m {
        status = update m.status sync status;
        count = update m.count sync (at.swap (m.count sync) 0).0;
      })
