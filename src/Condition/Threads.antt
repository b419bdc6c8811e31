-- ===== src/Condition/Threads.antt =====
-- src/condition.h with threads in use: any number of threads that call `condition_wait` and
-- `condition_timedwait`, and signals and broadcasts, all with the mutex held. A turn is what happens
-- from the lock of the mutex to its unlock, so the turns come one after the other, in any order.
mod Count
pub mod Broadcast
pub mod Spare
mod Tests
use libult.Base.{ℕ, Bool, true, false, not, ◌&&◌, List, [], ◌∷◌, ◌==◌, if◌then◌else◌, update}
use libult.Condition.{
  Condition, condition_construct, condition_signal, condition_broadcast, begin_wait, end_wait,
  leave, timed_end,
}

-- Where a thread is while the mutex is not its own.
pub data At : Type 0 where
  outside : At
  waiting : At  -- polls in `condition_wait`
  timing : At  -- polls in `condition_timedwait`
  passing : At  -- polls once, since a signal was pending

pub record Room : Type 0 where
  pub condition : Condition
  pub at : ℕ → At

pub data Turn : Type 0 where
  call_wait : ℕ → Turn
  call_timedwait : ℕ → Turn
  look : ℕ → Bool → Turn  -- the thread has the mutex again; is the deadline past?
  signal : Turn
  broadcast : Turn

abbrev pub settles : ℕ → Condition → At → Room → Room
settles t c a r = record { condition = c; at = update r.at t a }

-- `condition_wait` up to the first unlock, by a thread that is at the place given.
abbrev pub enter : At → ℕ → Room → Room
enter outside t r =
    let c = begin_wait r.condition in
    if not (0 == c.c_signaled) then settles t (leave c) passing r else settles t c waiting r
enter a t r = r

-- `condition_timedwait` up to the first unlock; with a signal pending there is none.
abbrev pub enter_timed : At → ℕ → Room → Room
enter_timed outside t r =
    let c = begin_wait r.condition in
    if 0 == c.c_signaled then settles t c timing r else settles t (timed_end c) outside r
enter_timed a t r = r

-- The test of the loop, and what stands behind it.
unfoldable pub look_move : At → (late : Bool) → ℕ → Room → Room
look_move outside late t r = r
look_move waiting late t r =
    if 0 == r.condition.c_signaled then r else settles t (end_wait r.condition) outside r
look_move timing late t r =
    if 0 == r.condition.c_signaled && not late
    then r
    else settles t (timed_end r.condition) outside r
look_move passing late t r = settles t r.condition outside r

unfoldable pub turn : Turn → Room → Room
unfolding look_move
turn (call_wait t) r = enter (r.at t) t r
turn (call_timedwait t) r = enter_timed (r.at t) t r
turn (look t late) r = look_move (r.at t) late t r
turn signal r = record r { condition = condition_signal r.condition }
turn broadcast r = record r { condition = condition_broadcast r.condition }

unfoldable pub turns : List Turn → Room → Room
unfolding turn
turns [] r = r
turns (x ∷ xs) r = turns xs (turn x r)

unfoldable pub empty : Room
empty = record { condition = condition_construct; at = λ t. outside }
