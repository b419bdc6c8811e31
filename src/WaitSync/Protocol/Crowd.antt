-- ===== src/WaitSync/Protocol/Crowd.antt =====
-- src/impl/base/wait_sync.c: `num_thread_in_progress`, the count of the threads in the progress loop, and
-- `max_thread_in_progress`, beside the interleaved steps. A thread adds itself before the loop and
-- takes itself off behind it, each in a step of its own, and what the count is decides whether a
-- thread goes to sleep.
mod Counted
pub mod Sleeps
pub mod Alive
mod Tests
use libult.Base.{
  ℕ, Bool, true, false, not, ◌&&◌, Option, List, [], ◌∷◌, ◌++◌, if◌then◌else◌, update, neg_word,
  leb_int32,
}
use libult.Usage.{add, Atomics, thread_op_fetch}
use libult.WaitSync.Protocol.{Place, State, Move, wait, wait_move, move, all_init}

pub record Crowd : Type 0 where
  pub num_thread_in_progress : ℕ
  pub counted : ℕ → Bool  -- the threads that have added themselves
  pub state : State

-- `at` are the processor's atomic operations.
module _ (at : Atomics) where
  -- `THREAD_ADD_FETCH32(&num_thread_in_progress, 1)` before the loop, and with -1 behind it.
  abbrev pub joins : ℕ → Crowd → Crowd
  joins s c = record c {
    num_thread_in_progress = (thread_op_fetch at true add 32 c.num_thread_in_progress 1).0;
    counted = update c.counted s true;
  }

  abbrev pub parts : ℕ → Crowd → Crowd
  parts s c = record c {
    num_thread_in_progress =
        (thread_op_fetch at true add 32 c.num_thread_in_progress (neg_word 32 1)).0;
    counted = update c.counted s false;
  }

module _ (at : Atomics) (max_thread_in_progress : ℕ) where
  -- `num_thread_in_progress >= max_thread_in_progress`
  abbrev pub is_crowded : Crowd → Bool
  is_crowded c = leb_int32 max_thread_in_progress c.num_thread_in_progress

  abbrev pub keeps_on : Place → ℕ → Crowd → Crowd
  keeps_on p s c = record c { state = wait_move p (is_crowded c) s c.state }

  -- A step of the thread that waits for `s`, which is at the place given.
  unfoldable pub crowd_wait : Place → ℕ → Crowd → Crowd
  crowd_wait Place.driving s c = if c.counted s then keeps_on Place.driving s c else joins at s c
  crowd_wait Place.trimming s c = if c.counted s then parts at s c else keeps_on Place.trimming s c
  crowd_wait p s c = keeps_on p s c

  -- Any step. Where the count decides, the Boolean of the step does not.
  unfoldable pub crowd_move : Move → Crowd → Crowd
  unfolding crowd_wait
  crowd_move (wait s b) c = crowd_wait (c.state.sync s).wait s c
  crowd_move m c = record c { state = move m c.state }

  unfoldable pub crowd_moves : List Move → Crowd → Crowd
  unfolding crowd_move
  crowd_moves [] c = c
  crowd_moves (m ∷ ms) c = crowd_moves ms (crowd_move m c)

-- WAIT_SYNC_INIT of every structure, with no thread in the progress loop.
unfoldable pub crowd_init : (ℕ → ℕ) → Crowd
crowd_init counts = record {
  num_thread_in_progress = 0;
  counted = λ s. false;
  state = all_init counts;
}
