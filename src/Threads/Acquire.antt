-- ===== src/Threads/Acquire.antt =====
-- src/threads.h: ACQUIRE_THREAD, RELEASE_THREAD and WAKEUP_THREAD on one mutex, condition and flag, run
-- by any number of threads with threads in use. A step is one access; the steps come in any order. A
-- thread in `condition_wait` has given the mutex up and takes it again at any time.
pub mod Exclusive
mod Tests
use libult.Base.{ℕ, Bool, true, false, Option, none, some, List, [], ◌∷◌, if◌then◌else◌, update}

-- Where a thread is.
pub data At : Type 0 where
  outside : At
  locking : At  -- at THREAD_LOCK of ACQUIRE_THREAD
  testing : At  -- at the test of `*(act)`, with the mutex
  waiting : At  -- in `condition_wait`, without the mutex
  inside : At  -- between ACQUIRE_THREAD and RELEASE_THREAD
  leaving : At  -- `*(act)` is cleared and the broadcast made

pub record Section : Type 0 where
  pub lock : Option ℕ  -- the mutex, with its owner
  pub act : Bool
  pub at : ℕ → At

-- A thread takes a step, or somebody calls WAKEUP_THREAD, which takes no mutex.
pub data Turn : Type 0 where
  step : ℕ → Turn
  wakeup : Turn

abbrev pub goes : ℕ → At → Section → Section
goes t a s = record s { at = update s.at t a }

-- The mutex taken by the thread, or tried again.
abbrev pub takes : ℕ → Option ℕ → Section → Section
takes t none s = goes t testing (record s { lock = some t })
takes t (some u) s = s

-- One step of thread `t`, which is at the place given.
unfoldable pub move : At → ℕ → Section → Section
move outside t s = goes t locking s
move locking t s = takes t s.lock s
move testing t s =
    if s.act
    then goes t waiting (record s { lock = none })
    else goes t inside (record s { act = true })
move waiting t s = takes t s.lock s
move inside t s = goes t leaving (record s { act = false })
move leaving t s = goes t outside (record s { lock = none })

unfoldable pub turn : Turn → Section → Section
unfolding move
turn (step t) s = move (s.at t) t s
turn wakeup s = record s { act = false }

unfoldable pub turns : List Turn → Section → Section
unfolding turn
turns [] s = s
turns (x ∷ xs) s = turns xs (turn x s)
