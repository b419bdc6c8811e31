-- ===== src/Condition/Threads/Broadcast.antt =====
-- src/condition.h: no thread misses a broadcast.
use libult.Base.{
  total-false, ℕ, suc, ◌≡◌, refl, sym, ap, ◌∙◌, ◌+◌, ◌<◌, ◌≤◌, ◌^◌, Bool, true, false, not, ◌&&◌,
  List, [], ◌∷◌, ◌==◌, Bool-cases, inl, inr, one-le-total, total-le-length, length, All, arith,
}
use libult.Condition.{
  Condition, condition_construct, condition_signal, condition_broadcast, end_wait, timed_end,
}
use libult.Condition.Threads.{
  At, outside, waiting, timing, passing, Room, Turn, call_wait, call_timedwait, look, signal,
  broadcast, enter, look_move, turn, turns, empty,
}
use libult.Condition.Threads.Count.{waits, IsBelow, IsCount, turn-IsCount, turns-IsCount}

-- The turn is not one of thread `t`, and no call of `condition_timedwait`.
abbrev pub is_other : ℕ → Turn → Bool
is_other t (call_wait s) = not (s == t)
is_other t (call_timedwait s) = false
is_other t (look s late) = not (s == t)
is_other t x = true

-- There is a signal for each waiting thread, and `k` more do not overflow.
record IsServed (k : ℕ) (c : Condition) : Type 0 where
  enough : c.c_waiting ≤ c.c_signaled
  room : c.c_signaled + k < 2 ^ 32

-- As long as somebody waits, it stays so: who comes then does not wait.
stays-IsServed : (k : ℕ) (c : Condition) → IsServed (suc k) c → IsServed k c
stays-IsServed k c i = record { enough = i.enough; room = let r = i.room in omega arith }

module _ (k : ℕ) (c : Condition) (i : IsServed (suc k) c) (pos : 1 ≤ c.c_waiting)
    (few : c.c_waiting < 2 ^ 31) where
  signal-IsServed : IsServed k (condition_signal c)
  unfolding condition_signal
  signal-IsServed =
      let e = i.enough in let r = i.room in record { enough = ground arith; room = ground arith }

  broadcast-IsServed : IsServed k (condition_broadcast c)
  unfolding condition_broadcast
  broadcast-IsServed =
      let e = i.enough in let r = i.room in record { enough = omega arith; room = omega arith }

  end_wait-IsServed : IsServed k (end_wait c)
  end_wait-IsServed =
      let e = i.enough in let r = i.room in record { enough = omega arith; room = omega arith }

  timed_end-IsServed : IsServed k (timed_end c)
  timed_end-IsServed =
      let e = i.enough in let r = i.room in record { enough = ground arith; room = ground arith }

module _ (k t : ℕ) (r : Room) (i : IsServed (suc k) r.condition) (pos : 1 ≤ r.condition.c_waiting)
    (few : r.condition.c_waiting < 2 ^ 31) where
  enter-IsServed : (a : At) (s : ℕ) → IsServed k (enter a s r).condition
  enter-IsServed outside s =
      let e = i.enough in
      let m = i.room in
      let pending : (0 == r.condition.c_signaled) ≡ false = ground arith in
      rw pending (record { enough = omega arith; room = omega arith })
  enter-IsServed a s = stays-IsServed k r.condition i

  look_move-IsServed : (a : At) (late : Bool) (s : ℕ) → IsServed k (look_move a late s r).condition
  unfolding look_move
  look_move-IsServed outside late s = stays-IsServed k r.condition i
  look_move-IsServed waiting late s = elim (Bool-cases (0 == r.condition.c_signaled)) [
    | inl h ↦ rw h (stays-IsServed k r.condition i)
    | inr h ↦ rw h (end_wait-IsServed k r.condition i pos few)
  ]
  look_move-IsServed timing late s = elim (Bool-cases (0 == r.condition.c_signaled && not late)) [
    | inl h ↦ rw h (stays-IsServed k r.condition i)
    | inr h ↦ rw h (timed_end-IsServed k r.condition i pos few)
  ]
  look_move-IsServed passing late s = stays-IsServed k r.condition i

  turn-IsServed : (x : Turn) → is_other t x ≡ true → IsServed k (turn x r).condition
  unfolding turn
  turn-IsServed (call_wait s) o = enter-IsServed (r.at s) s
  turn-IsServed (call_timedwait s) o = cc
  turn-IsServed (look s late) o = look_move-IsServed (r.at s) late s
  turn-IsServed signal o = signal-IsServed k r.condition i pos few
  turn-IsServed broadcast o = broadcast-IsServed k r.condition i pos few

pub other_place : (t : ℕ) (x : Turn) (r : Room) → is_other t x ≡ true → (turn x r).at t ≡ r.at t
unfolding turn look_move
other_place t x r o = ground arith

module _ (n t : ℕ) (small : n < 2 ^ 31) (l : t < n) where
  turns-IsServed :
      (xs : List Turn) (r : Room)
      → All (IsBelow n) xs
      → All (λ x. is_other t x ≡ true) xs
      → IsCount n r
      → waits (r.at t) ≡ true
      → IsServed (length xs) r.condition
      → IsServed 0 (turns xs r).condition × ((turns xs r).at t ≡ r.at t)
  unfolding turns
  turns-IsServed [] r below others i w s = (s, refl)
  turns-IsServed (x ∷ xs) r (b, below) (o, others) i w s =
      let some_one = one-le-total n (λ q. waits (r.at q)) t l w in
      let few = total-le-length n (λ q. waits (r.at q)) in
      let same = other_place t x r o in
      let rest =
        turns-IsServed xs (turn x r) below others (turn-IsCount n small x r b i) (ap waits same ∙ w)
          (turn-IsServed (length xs) t r s (omega arith) (omega arith) x o) in
      (rest.0, rest.1 ∙ same)

empty-IsCount : (n : ℕ) → IsCount n empty
unfolding empty condition_construct
empty-IsCount n = sym (total-false n)

look_returns :
    (late : Bool) (t : ℕ) (r : Room)
    → waits (r.at t) ≡ true
    → 1 ≤ r.condition.c_signaled
    → (turn (look t late) r).at t ≡ outside
unfolding turn look_move
look_returns late t r w pos = ground arith

-- No thread misses a broadcast. Take any number of threads, below 2 ^ 31, and any turns of theirs, with
-- `condition_wait`, `condition_timedwait`, signals and broadcasts. A thread that waits then, in
-- either function, returns at its first look after a broadcast, whatever the others do between the
-- two, with the deadline past or not, unless some thread begins a `condition_timedwait` between them;
-- new calls of `condition_wait`, further signals and broadcasts and the returns of the others do not
-- keep it. It supposes that there are not so many turns in between that `c_signaled` overflows.
pub broadcast_wakes :
    (n t : ℕ) (before after : List Turn) (late : Bool)
    → n < 2 ^ 31
    → t < n
    → All (IsBelow n) before
    → All (IsBelow n) after
    → All (λ x. is_other t x ≡ true) after
    → n + length after < 2 ^ 32
    → waits ((turns before empty).at t) ≡ true
    → (turn (look t late) (turns after (turn broadcast (turns before empty)))).at t ≡ outside
unfolding turn condition_broadcast
broadcast_wakes n t before after late small l all_before all_after others bound w =
    let r = turns before empty in
    let i = turns-IsCount n small before empty all_before (empty-IsCount n) in
    let few = total-le-length n (λ q. waits (r.at q)) in
    let woken = turn broadcast r in
    let i' : IsCount n woken = i in
    let served : IsServed (length after) woken.condition = record {
      enough = omega arith;
      room = omega arith;
    } in
    let (end, same) = turns-IsServed n t small l after woken all_after others i' w served in
    let still = ap waits same ∙ w in
    let count = turns-IsCount n small after woken all_after i' in
    let some_one = one-le-total n (λ q. waits ((turns after woken).at q)) t l still in
    let enough = end.enough in look_returns late t (turns after woken) still (omega arith)
