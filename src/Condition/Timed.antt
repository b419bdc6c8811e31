-- ===== src/Condition/Timed.antt =====
-- src/condition.h: `condition_timedwait` and its deadline.
use libult.Base.{
  ℕ, zero, suc, ◌≡◌, ◌≢◌, refl, ◌∙◌, ap, ◌≤◌, ◌<◌, Bool, ◌&&◌, some, List, [], ◌∷◌, ◌++◌, arith,
  ◌==◌, leb, length, if_true, if_false, ◌⊎◌,
}
use libult.Condition.{
  Condition, begin_wait, Op, perform_all, Event, poll, Time, absolute, not_yet, timed_loop,
  timed_end, timed_out, condition_timedwait,
}
use libult.Condition.Wait.{polls}

-- The test on the clock does not look at the microseconds: it holds up to the end of the second of
-- the deadline.
not_yet-leb : (tv deadline : Time) → not_yet tv deadline ≡ leb (tv.0) (deadline.0)
unfolding not_yet
not_yet-leb (sec, usec) (end_sec, end_usec) = ground arith

-- The counters after some rounds.
unfoldable pub after : List (List Op × Time) → Condition → Condition
after [] c = c
after ((ops, tv) ∷ rounds) c = after rounds (perform_all ops c)

-- In none of the rounds does a signal come or the clock pass the second `sec`.
abbrev pub IsWaiting : ℕ → List (List Op × Time) → Condition → Type 0
IsWaiting sec [] c = Unit
IsWaiting sec ((ops, tv) ∷ rounds) c =
    ((perform_all ops c).c_signaled ≡ 0) × (tv.0 ≤ sec) × IsWaiting sec rounds (perform_all ops c)

timed_loop-after :
    (u : Bool) (deadline : Time) (rounds rest : List (List Op × Time)) (c : Condition)
    (tr : List Event)
    → IsWaiting (deadline.0) rounds c
    → timed_loop u deadline (rounds ++ rest) c tr
      ≡ timed_loop u deadline rest (after rounds c) (polls u (length rounds) tr)
unfolding timed_loop after
timed_loop-after u deadline [] rest c tr h = refl
timed_loop-after u deadline ((ops, tv) ∷ rounds) rest c tr (z, t, h) =
    if_true (0 == (perform_all ops c).c_signaled && not_yet tv deadline) _ _
      (ground (arith, not_yet-leb tv deadline))
    ∙ timed_loop-after u deadline rounds rest (perform_all ops c) (poll u tr) h

-- The round in which the loop ends.
timed_loop_last :
    (u : Bool) (deadline : Time) (rest : List (List Op × Time)) (ops : List Op) (tv : Time)
    (c : Condition) (tr : List Event)
    → ((perform_all ops c).c_signaled ≢ 0) ⊎ (deadline.0 < tv.0)
    → timed_loop u deadline ((ops, tv) ∷ rest) c tr ≡ some (perform_all ops c, poll u tr)
unfolding timed_loop
timed_loop_last u deadline rest ops tv c tr d =
    if_false (0 == (perform_all ops c).c_signaled && not_yet tv deadline) _ _
      (ground (arith, not_yet-leb tv deadline))

polls-poll : (u : Bool) (n : ℕ) (tr : List Event) → poll u (polls u n tr) ≡ polls u (suc n) tr
polls-poll u zero tr = refl
polls-poll u (suc n) tr = polls-poll u n (poll u tr)

-- `condition_timedwait`, begun with no signal pending, goes on through all rounds in which no signal
-- comes and the clock stands at most in the deadline's second, however far its microseconds are
-- past the deadline's. It ends in the first round after them that has a signal, which is then
-- taken, or a reading in a later second.
pub condition_timedwait_deadline :
    (u : Bool) (abstime : Time) (rounds rest : List (List Op × Time)) (ops : List Op) (tv : Time)
    (c : Condition) (tr : List Event)
    → c.c_signaled ≡ 0
    → IsWaiting (abstime.0) rounds (begin_wait c)
    → ((perform_all ops (after rounds (begin_wait c))).c_signaled ≢ 0) ⊎ (abstime.0 < tv.0)
    → condition_timedwait u abstime (rounds ++ (ops, tv) ∷ rest) c tr
      ≡ some (
        timed_end (perform_all ops (after rounds (begin_wait c))),
        polls u (suc (length rounds)) tr,
      )
unfolding condition_timedwait
condition_timedwait_deadline u abstime rounds rest ops tv c tr z h d =
    if_true (0 == c.c_signaled) _ _ (ground arith)
    ∙ ap timed_out (
        timed_loop-after u (absolute abstime) rounds ((ops, tv) ∷ rest) (begin_wait c) tr h
        ∙ timed_loop_last u (absolute abstime) rest ops tv (after rounds (begin_wait c))
            (polls u (length rounds) tr) d)
    ∙ ap (λ t. some (timed_end (perform_all ops (after rounds (begin_wait c))), t))
        (polls-poll u (length rounds) tr)
