-- ===== src/Qthreads/SelfKey.antt =====
-- src/impl/qthreads/threads_qthreads_module.c: `self_key_ensure_init`, run by any number of threads at
-- once. A step is one access to the shared variables; the threads' steps come in any order.
pub mod Once
pub mod Progress
mod Tests
use libult.Base.{
  ℕ, suc, Bool, true, false, Option, none, some, List, [], ◌∷◌, if◌then◌else◌, update,
}

-- Where a thread is.
pub data At : Type 0 where
  enter : At  -- before the first test
  locking : At  -- the first test saw false
  checking : At  -- has the lock
  creating : At  -- the second test saw false
  publishing : At  -- the key is created
  unlocking : At
  done : At

-- `thread_self_key_lock` with its owner, `thread_self_key_init`, how often the key was created, and
-- where the threads are.
pub record Shared : Type 0 where
  pub lock : Option ℕ
  pub init : Bool
  pub created : ℕ
  pub at : ℕ → At

abbrev pub goes : ℕ → At → Shared → Shared
goes t a s = record s { at = update s.at t a }

-- One step of thread `t`, which is at the place given. A lock that is taken is tried again.
unfoldable pub move : At → ℕ → Shared → Shared
move enter t s = goes t (if s.init then done else locking) s
move locking t s = elim s.lock [ none ↦ goes t checking (record s { lock = some t }) | some u ↦ s ]
move checking t s = goes t (if s.init then unlocking else creating) s
move creating t s = goes t publishing (record s { created = suc s.created })
move publishing t s = goes t unlocking (record s { init = true })
move unlocking t s = goes t done (record s { lock = none })
move done t s = s

-- `self_key_ensure_init` of all threads, in the order of the schedule.
unfoldable pub self_key_ensure_init : List ℕ → Shared → Shared
unfolding move
self_key_ensure_init [] s = s
self_key_ensure_init (t ∷ ts) s = self_key_ensure_init ts (move (s.at t) t s)
