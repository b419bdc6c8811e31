-- ===== src/Condition/Threads/Count.antt =====
-- src/condition.h: `c_waiting` is the number of the threads that wait for a signal.
use libult.Base.{
  ℕ, ◌≡◌, refl, ap, ◌∙◌, ◌+◌, ◌<◌, ◌^◌, Bool, true, false, not, ◌&&◌, List, [], ◌∷◌, ◌==◌,
  Bool-cases, inl, inr, one, total, total-update, one-le-total, total-le-length, All, arith,
}
use libult.Condition.{
  Condition, condition_signal, condition_broadcast, dec, begin_wait, end_wait, leave, timed_end,
}
use libult.Condition.Threads.{
  At, outside, waiting, timing, passing, Room, Turn, call_wait, call_timedwait, look, signal,
  broadcast, settles, enter, enter_timed, look_move, turn, turns,
}

abbrev pub waits : At → Bool
waits waiting = true
waits timing = true
waits a = false

abbrev pub waiters : ℕ → Room → ℕ
waiters n r = total n λ q. one (waits (r.at q))

-- The threads are below `n`.
abbrev pub IsBelow : ℕ → Turn → Type 0
IsBelow n (call_wait t) = t < n
IsBelow n (call_timedwait t) = t < n
IsBelow n (look t late) = t < n
IsBelow n signal = Unit
IsBelow n broadcast = Unit

abbrev pub IsCount : ℕ → Room → Type 0
IsCount n r = r.condition.c_waiting ≡ waiters n r

module _ (n : ℕ) (small : n < 2 ^ 31) where
  -- A thread changes its place, and `c_waiting` with it.
  settles-IsCount :
      (t : ℕ) (c : Condition) (a : At) (r : Room)
      → t < n
      → r.condition.c_waiting ≡ waiters n r
      → c.c_waiting + one (waits (r.at t)) ≡ r.condition.c_waiting + one (waits a)
      → c.c_waiting ≡ waiters n (settles t c a r)
  settles-IsCount t c a r l i e =
      let moved = total-update (λ v. one (waits v)) n r.at t a l in omega arith

  enter-IsCount :
      (a : At) (t : ℕ) (r : Room) → t < n → IsCount n r → r.at t ≡ a → IsCount n (enter a t r)
  enter-IsCount outside t r l i e =
      let few = total-le-length n (λ q. waits (r.at q)) in
      let here : one (waits (r.at t)) ≡ 0 = ap (λ v. one (waits v)) e in
      elim (Bool-cases (0 == r.condition.c_signaled)) [
        | inl h ↦ rw h (settles-IsCount t (begin_wait r.condition) waiting r l i (omega arith))
        | inr h ↦
            rw h (settles-IsCount t (leave (begin_wait r.condition)) passing r l i (omega arith))
      ]
  enter-IsCount a t r l i e = i

  enter_timed-IsCount :
      (a : At) (t : ℕ) (r : Room) → t < n → IsCount n r → r.at t ≡ a → IsCount n (enter_timed a t r)
  enter_timed-IsCount outside t r l i e =
      let few = total-le-length n (λ q. waits (r.at q)) in
      let here : one (waits (r.at t)) ≡ 0 = ap (λ v. one (waits v)) e in
      elim (Bool-cases (0 == r.condition.c_signaled)) [
        | inl h ↦ rw h (settles-IsCount t (begin_wait r.condition) timing r l i (omega arith))
        | inr h ↦
            rw h (settles-IsCount t (end_wait (begin_wait r.condition)) outside r l i (omega arith))
      ]
  enter_timed-IsCount a t r l i e = i

  -- A waiting thread that returns: it is one of those that are counted.
  returns-IsCount :
      (t : ℕ) (c : Condition) (r : Room)
      → t < n
      → IsCount n r
      → waits (r.at t) ≡ true
      → c.c_waiting ≡ dec r.condition.c_waiting
      → IsCount n (settles t c outside r)
  returns-IsCount t c r l i w e =
      let few = total-le-length n (λ q. waits (r.at q)) in
      let some_one = one-le-total n (λ q. waits (r.at q)) t l w in
      let here : one (waits (r.at t)) ≡ 1 = ap one w in
      settles-IsCount t c outside r l i (omega arith)

  timed_end-waiting : (c : Condition) → (timed_end c).c_waiting ≡ dec c.c_waiting
  timed_end-waiting c = ground arith

  look_move-IsCount :
      (a : At) (late : Bool) (t : ℕ) (r : Room)
      → t < n
      → IsCount n r
      → r.at t ≡ a
      → IsCount n (look_move a late t r)
  unfolding look_move
  look_move-IsCount outside late t r l i e = i
  look_move-IsCount waiting late t r l i e = elim (Bool-cases (0 == r.condition.c_signaled)) [
    | inl h ↦ rw h i
    | inr h ↦ rw h (returns-IsCount t (end_wait r.condition) r l i (ap waits e) refl)
  ]
  look_move-IsCount timing late t r l i e =
      elim (Bool-cases (0 == r.condition.c_signaled && not late)) [
        | inl h ↦ rw h i
        | inr h ↦ rw h (
            returns-IsCount t (timed_end r.condition) r l i (ap waits e)
              (timed_end-waiting r.condition))
      ]
  look_move-IsCount passing late t r l i e =
      settles-IsCount t r.condition outside r l i
        (ap (λ v. r.condition.c_waiting + one (waits v)) e)

  signal-waiting : (c : Condition) → (condition_signal c).c_waiting ≡ c.c_waiting
  unfolding condition_signal
  signal-waiting c = ground arith

  pub turn-IsCount : (x : Turn) (r : Room) → IsBelow n x → IsCount n r → IsCount n (turn x r)
  unfolding turn condition_signal condition_broadcast
  turn-IsCount (call_wait t) r l i = enter-IsCount (r.at t) t r l i refl
  turn-IsCount (call_timedwait t) r l i = enter_timed-IsCount (r.at t) t r l i refl
  turn-IsCount (look t late) r l i = look_move-IsCount (r.at t) late t r l i refl
  turn-IsCount signal r l i = signal-waiting r.condition ∙ i
  turn-IsCount broadcast r l i = i

  pub turns-IsCount :
      (xs : List Turn) (r : Room) → All (IsBelow n) xs → IsCount n r → IsCount n (turns xs r)
  unfolding turns
  turns-IsCount [] r all i = i
  turns-IsCount (x ∷ xs) r (l, all) i = turns-IsCount xs (turn x r) all (turn-IsCount x r l i)
