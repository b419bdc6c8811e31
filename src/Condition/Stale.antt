-- ===== src/Condition/Stale.antt =====
-- src/condition.h: signals that are pending when a wait begins, and the broadcast.
use libult.Base.{
  ℕ, zero, suc, ◌≡◌, ◌≢◌, refl, ◌∙◌, ap, ◌<◌, ◌^◌, true, false, not, some, List, [], ◌∷◌, arith,
  ◌==◌, if_true, if_false,
}
use libult.Condition.{
  Condition, begin_wait, inc, dec, Op, broadcast, take_signal, condition_broadcast, perform,
  perform_all, Event, poll, wait_loop, taken, wait_pending, condition_wait,
}

back : (w : ℕ) → w < 2 ^ 32 → dec (inc w) ≡ w
back w h = omega arith

-- A wait that begins while a signal is pending returns without waiting for another one. With threads
-- in use it makes one poll and leaves both counters as the others' operations make them: the signal
-- stays pending. Without threads it makes no poll and takes the signal.
pub condition_wait_pending :
    (ops : List Op) (rounds : List (List Op)) (c : Condition) (tr : List Event)
    → c.c_signaled ≢ 0
    → c.c_waiting < 2 ^ 32
    → (condition_wait true (ops ∷ rounds) c tr ≡ some (perform_all ops c, poll true tr))
      × (condition_wait false rounds c tr ≡ some (record c { c_signaled = dec c.c_signaled }, tr))
unfolding condition_wait wait_pending wait_loop
condition_wait_pending ops rounds c tr e h = (
  if_true (not (0 == c.c_signaled)) _ _ (ground arith)
      ∙ ap (λ w. some (perform_all ops (record c { c_waiting = w }), poll true tr))
          (back c.c_waiting h),
  ap taken (pending rounds)
      ∙ ap (λ w. some (record { c_waiting = w; c_signaled = dec c.c_signaled }, tr))
          (back c.c_waiting h),
)
  where
    pending :
        (rounds : List (List Op))
        → wait_loop false rounds (begin_wait c) tr ≡ some (begin_wait c, tr)
    pending [] = if_false (0 == c.c_signaled) _ _ (ground arith)
    pending (ops ∷ rounds) = if_false (0 == c.c_signaled) _ _ (ground arith)

-- `n` threads return from their wait with a signal each.
abbrev pub returns : ℕ → List Op
returns zero = []
returns (suc n) = take_signal ∷ returns n

returns_drained :
    (n : ℕ)
    → n < 2 ^ 32
    → perform_all (returns n) (record { c_waiting = n; c_signaled = n })
      ≡ record { c_waiting = 0; c_signaled = 0 }
unfolding perform_all perform
returns_drained zero h = refl
returns_drained (suc n) h =
    ap (λ k. perform_all (returns n) (record { c_waiting = k; c_signaled = k })) down
    ∙ returns_drained n (omega arith)
  where
    down : dec (suc n) ≡ n
    down = omega arith

-- A broadcast releases all waiters and no more: it overrides the signals pending, and once every
-- thread that waited has returned with a signal, nobody waits and no signal is left.
pub broadcast_drained :
    (n : ℕ) (c : Condition)
    → c.c_waiting ≡ n
    → n < 2 ^ 32
    → perform_all (broadcast ∷ returns n) c ≡ record { c_waiting = 0; c_signaled = 0 }
unfolding perform_all perform condition_broadcast
broadcast_drained n c e h =
    ap (λ k. perform_all (returns n) (record { c_waiting = k; c_signaled = k })) e
    ∙ returns_drained n h
