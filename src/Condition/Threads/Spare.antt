-- ===== src/Condition/Threads/Spare.antt =====
-- src/condition.h: signals that are left over, and signals that the wrong thread takes.
use libult.Base.{
  ℕ, ◌≡◌, ◌≢◌, refl, ap, ◌∙◌, Bool, true, false, List, [], ◌∷◌, ◌==◌, if_true, ==_refl, All, arith,
}
use libult.Condition.{Condition, condition_signal, condition_broadcast, begin_wait, leave}
use libult.Condition.Threads.{
  At, outside, waiting, passing, Room, Turn, call_wait, call_timedwait, look, signal, broadcast,
  settles, enter, look_move, turn, turns,
}
use libult.Condition.Threads.Count.{waits}
use libult.Condition.Threads.Broadcast.{is_other, other_place}

-- Nobody waits, and `k` signals are left.
record IsSpare (k : ℕ) (r : Room) : Type 0 where
  nobody : r.condition.c_waiting ≡ 0
  left : r.condition.c_signaled ≡ k
  places : (t : ℕ) → waits (r.at t) ≡ false

-- No broadcast, and no call of `condition_timedwait`.
abbrev pub is_plain : Turn → Bool
is_plain (call_timedwait t) = false
is_plain broadcast = false
is_plain x = true

settles-places :
    (t : ℕ) (c : Condition) (a : At) (r : Room)
    → waits a ≡ false
    → ((u : ℕ) → waits (r.at u) ≡ false)
    → (u : ℕ) → waits ((settles t c a r).at u) ≡ false
settles-places t c a r e places u = ground (arith, places u)

enter-IsSpare : (k : ℕ) (a : At) (t : ℕ) (r : Room) → k ≢ 0 → IsSpare k r → IsSpare k (enter a t r)
enter-IsSpare k outside t r ne i =
    let n = i.nobody in
    let l = i.left in
    let pending : (0 == r.condition.c_signaled) ≡ false = ground arith in
    rw pending (record {
      nobody = omega arith;
      left = l;
      places = settles-places t (leave (begin_wait r.condition)) passing r refl i.places;
    })
enter-IsSpare k a t r ne i = i

look_move-IsSpare :
    (k : ℕ) (a : At) (late : Bool) (t : ℕ) (r : Room)
    → IsSpare k r
    → r.at t ≡ a
    → IsSpare k (look_move a late t r)
unfolding look_move
look_move-IsSpare k passing late t r i e = record {
  nobody = i.nobody;
  left = i.left;
  places = settles-places t r.condition outside r refl i.places;
}
look_move-IsSpare k outside late t r i e = i
look_move-IsSpare k a late t r i e = let none_waits = i.places t in ground arith

turn-IsSpare :
    (k : ℕ) (x : Turn) (r : Room) → k ≢ 0 → is_plain x ≡ true → IsSpare k r → IsSpare k (turn x r)
unfolding turn condition_signal
turn-IsSpare k (call_wait t) r ne p i = enter-IsSpare k (r.at t) t r ne i
turn-IsSpare k (look t late) r ne p i = look_move-IsSpare k (r.at t) late t r i refl
turn-IsSpare k signal r ne p i =
    let n = i.nobody in
    let l = i.left in record { nobody = ground arith; left = ground arith; places = i.places }
turn-IsSpare k x r ne p i = cc

turns-IsSpare :
    (k : ℕ) (xs : List Turn) (r : Room)
    → k ≢ 0
    → All (λ x. is_plain x ≡ true) xs
    → IsSpare k r
    → IsSpare k (turns xs r)
unfolding turns
turns-IsSpare k [] r ne all i = i
turns-IsSpare k (x ∷ xs) r ne (p, all) i =
    turns-IsSpare k xs (turn x r) ne all (turn-IsSpare k x r ne p i)

call-passing :
    (k : ℕ) (t : ℕ) (r : Room)
    → k ≢ 0
    → IsSpare k r
    → r.at t ≡ outside
    → (turn (call_wait t) r).at t ≡ passing
unfolding turn
call-passing k t r ne i e =
    let l = i.left in
    let pending : (0 == r.condition.c_signaled) ≡ false = ground arith in
    rw (e, pending) (if_true (t == t) passing (r.at t) (==_refl t))

turns-other_place :
    (t : ℕ) (xs : List Turn) (r : Room)
    → All (λ x. is_other t x ≡ true) xs
    → (turns xs r).at t ≡ r.at t
unfolding turns
turns-other_place t [] r all = refl
turns-other_place t (x ∷ xs) r (o, all) =
    turns-other_place t xs (turn x r) all ∙ other_place t x r o

look-passing :
    (late : Bool) (t : ℕ) (r : Room) → r.at t ≡ passing → (turn (look t late) r).at t ≡ outside
unfolding turn look_move
look-passing late t r e = rw e (if_true (t == t) outside (r.at t) (==_refl t))

-- Where nobody waits and signals are left, no thread ever waits in `condition_wait` again, however many
-- calls of it are made and whatever signals come: nobody waits after any such turns, the signals
-- stay, and a thread that calls it then polls once, since it is passing until its next look, whatever
-- the others do until then, and returns at that look. So it is as long as no broadcast comes and
-- nobody calls `condition_timedwait`.
pub spare_signal_stays :
    (r : Room) (xs ys : List Turn) (t u : ℕ) (late : Bool)
    → r.condition.c_waiting ≡ 0
    → r.condition.c_signaled ≢ 0
    → ((q : ℕ) → waits (r.at q) ≡ false)
    → All (λ x. is_plain x ≡ true) xs
    → All (λ x. is_other t x ≡ true) ys
    → (turns xs r).at t ≡ outside
    → (waits ((turns xs r).at u) ≡ false)
      × ((turns xs r).condition.c_signaled ≡ r.condition.c_signaled)
      × ((turns ys (turn (call_wait t) (turns xs r))).at t ≡ passing)
      × ((turn (look t late) (turns ys (turn (call_wait t) (turns xs r)))).at t ≡ outside)
spare_signal_stays r xs ys t u late n ne places all others there =
    let i =
      turns-IsSpare r.condition.c_signaled xs r ne all
        (record { nobody = n; left = refl; places = places }) in
    let called = turn (call_wait t) (turns xs r) in
    let passes =
      turns-other_place t ys called others
      ∙ call-passing r.condition.c_signaled t (turns xs r) ne i there in
    (i.places u, i.left, passes, look-passing late t (turns ys called) passes)

stolen :
    (r : Room) (s : ℕ)
    → r.condition.c_waiting ≡ 1
    → r.at s ≡ outside
    → turn (call_timedwait s) (turn broadcast r)
      ≡ settles s (record { c_waiting = 1; c_signaled = 0 }) outside r
unfolding turn condition_broadcast
stolen r s one_waits there = rw (there, one_waits) refl

goes_on :
    (r : Room) (t s : ℕ) (late : Bool)
    → r.at t ≡ waiting
    → r.at s ≡ outside
    → (turn (look t late) (settles s (record { c_waiting = 1; c_signaled = 0 }) outside r)).at t
      ≡ waiting
unfolding turn look_move
goes_on r t s late here there = ground arith

-- A thread that begins a `condition_timedwait` behind a broadcast takes the signal of a thread that
-- waits: where one thread waits, in `condition_wait`, and there is a broadcast, and then another thread
-- calls `condition_timedwait`, that one returns at once, and the first goes on waiting.
pub timedwait_steals :
    (r : Room) (t s : ℕ) (late : Bool)
    → r.condition.c_waiting ≡ 1
    → r.at t ≡ waiting
    → r.at s ≡ outside
    → ((turn (call_timedwait s) (turn broadcast r)).at s ≡ outside)
      × ((turn (look t late) (turn (call_timedwait s) (turn broadcast r))).at t ≡ waiting)
timedwait_steals r t s late one_waits here there =
    let same = stolen r s one_waits there in
    (
      ap (λ (v : Room). v.at s) same ∙ if_true (s == s) outside (r.at s) (==_refl s),
      ap (λ v. (turn (look t late) v).at t) same ∙ goes_on r t s late here there,
    )
