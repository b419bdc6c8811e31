-- ===== src/Condition.antt =====
-- src/condition.h: the condition variable that counts its waiters and its signals, and polls. The
-- progress engine and the other threads are not part of it: what they do between two looks at the
-- counters is a list of operations on them, a round, in the order in which they happen.
pub mod Wait
pub mod Timed
pub mod Stale
pub mod Threads
mod Tests
use libult.Base.{
  ℕ, ◌+◌, ◌-◌, ◌/◌, ◌%◌, ◌^◌, Bool, true, false, not, ◌&&◌, ◌||◌, Option, none, some, List, [], ◌∷◌,
  ltb, leb, ◌==◌, if◌then◌else◌, add_word, sub_word,
}

-- `struct condition_t`; both counters are patterns of an `int`.
pub record Condition : Type 0 where
  pub c_waiting : ℕ
  pub c_signaled : ℕ

-- `c++` and `c--` on an `int`.
abbrev pub inc : ℕ → ℕ
inc c = add_word 32 c 1

abbrev pub dec : ℕ → ℕ
dec c = sub_word 32 c 1

-- `condition_construct`, the same in all three backends.
pub condition_construct : Condition
condition_construct = record { c_waiting = 0; c_signaled = 0 }

unfoldable pub condition_signal : Condition → Condition
condition_signal c =
    if not (c.c_waiting == 0) then record c { c_signaled = inc c.c_signaled } else c

unfoldable pub condition_broadcast : Condition → Condition
condition_broadcast c = record c { c_signaled = c.c_waiting }

-- The counters at the start of a wait, at its end, and where it ends without a signal taken.
abbrev pub begin_wait : Condition → Condition
begin_wait c = record c { c_waiting = inc c.c_waiting }

abbrev pub end_wait : Condition → Condition
end_wait c = record { c_waiting = dec c.c_waiting; c_signaled = dec c.c_signaled }

abbrev pub leave : Condition → Condition
leave c = record c { c_waiting = dec c.c_waiting }

-- What others do to the counters.
pub data Op : Type 0 where
  signal : Op
  broadcast : Op
  arrive : Op
  take_signal : Op
  quit : Op

unfoldable pub perform : Op → Condition → Condition
perform signal c = condition_signal c
perform broadcast c = condition_broadcast c
perform arrive c = begin_wait c
perform take_signal c = end_wait c
perform quit c = leave c

unfoldable pub perform_all : List Op → Condition → Condition
perform_all [] c = c
perform_all (op ∷ ops) c = perform_all ops (perform op c)

-- Calls on the mutex and of the progress engine.
pub data Event : Type 0 where
  unlock : Event
  progress : Event
  lock : Event

-- One poll: the mutex is given up for it if threads are in use. The latest call comes first.
abbrev pub poll : Bool → List Event → List Event
poll uses_threads tr = if uses_threads then lock ∷ progress ∷ unlock ∷ tr else progress ∷ tr

-- `while (0 == c->c_signaled) …`; `none` means that the wait outlasts the rounds.
unfoldable pub wait_loop :
    Bool → List (List Op) → Condition → List Event → Option (Condition × List Event)
wait_loop uses_threads [] c tr = if 0 == c.c_signaled then none else some (c, tr)
wait_loop uses_threads (ops ∷ rounds) c tr =
    let rest = wait_loop uses_threads rounds (perform_all ops c) (poll uses_threads tr) in
    if 0 == c.c_signaled then rest else some (c, tr)

-- `c->c_signaled--; c->c_waiting--` behind the loop.
abbrev pub taken : Option (Condition × List Event) → Option (Condition × List Event)
taken none = none
taken (some (c, tr)) = some (end_wait c, tr)

-- With threads in use and a signal pending: one poll, and nothing is taken.
unfoldable pub wait_pending :
    List (List Op) → Condition → List Event → Option (Condition × List Event)
wait_pending [] c tr = none
wait_pending (ops ∷ rounds) c tr = some (perform_all ops (leave c), poll true tr)

-- The counters and the calls after `condition_wait`, which returns `SUCCESS` always.
unfoldable pub condition_wait :
    Bool → List (List Op) → Condition → List Event → Option (Condition × List Event)
unfolding wait_loop wait_pending
condition_wait uses_threads rounds c tr =
    let c = begin_wait c in
    if uses_threads && not (0 == c.c_signaled)
    then wait_pending rounds c tr
    else taken (wait_loop uses_threads rounds c tr)

-- A reading of the clock: seconds and microseconds.
abbrev pub Time : Type 0
Time = ℕ × ℕ

-- `absolute`, from a `struct timespec` of seconds and nanoseconds.
abbrev pub absolute : Time → Time
absolute (sec, nsec) = (sec, nsec / 1000)

-- The test of the two `do … while` loops on the clock.
unfoldable pub not_yet : (tv deadline : Time) → Bool
not_yet (sec, usec) (end_sec, end_usec) = leb sec end_sec || (sec == end_sec && ltb usec end_usec)

-- Those loops; each round comes with the reading of the clock made in it.
unfoldable pub timed_loop :
    Bool → Time → List (List Op × Time) → Condition → List Event → Option (Condition × List Event)
timed_loop uses_threads deadline [] c tr = none
timed_loop uses_threads deadline ((ops, tv) ∷ rounds) c tr =
    let c' = perform_all ops c in
    let rest = timed_loop uses_threads deadline rounds c' (poll uses_threads tr) in
    if 0 == c'.c_signaled && not_yet tv deadline then rest else some (c', poll uses_threads tr)

-- What stands behind those loops.
abbrev pub timed_end : Condition → Condition
timed_end c = if not (0 == c.c_signaled) then end_wait c else leave c

abbrev pub timed_out : Option (Condition × List Event) → Option (Condition × List Event)
timed_out none = none
timed_out (some (c, tr)) = some (timed_end c, tr)

-- The counters and the calls after `condition_timedwait`, which returns `SUCCESS` always.
unfoldable pub condition_timedwait :
    Bool → Time → List (List Op × Time) → Condition → List Event → Option (Condition × List Event)
unfolding timed_loop not_yet
condition_timedwait uses_threads abstime rounds c tr =
    let c = begin_wait c in
    if 0 == c.c_signaled
    then timed_out (timed_loop uses_threads (absolute abstime) rounds c tr)
    else some (timed_end c, tr)
