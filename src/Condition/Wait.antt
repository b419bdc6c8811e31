-- ===== src/Condition/Wait.antt =====
-- src/condition.h: `condition_wait` blocks until there is a signal, and then takes one.
use libult.Base.{
  ℕ, zero, suc, ◌≡◌, ◌≢◌, refl, ◌∙◌, ap, sym, Bool, not, ◌&&◌, none, some, sub_word, List, [], ◌∷◌,
  ◌++◌, arith, ◌==◌, if◌then◌else◌, length, if_true, if_false,
}
use mathlib.Core.List.{append-nil}
use libult.Condition.{
  Condition, begin_wait, Op, perform_all, Event, unlock, progress, lock, poll, wait_loop, taken,
  condition_wait,
}

-- The counters after some rounds.
unfoldable pub after : List (List Op) → Condition → Condition
after [] c = c
after (ops ∷ rounds) c = after rounds (perform_all ops c)

-- No signal is there before any of the rounds.
abbrev pub IsQuiet : List (List Op) → Condition → Type 0
IsQuiet [] c = Unit
IsQuiet (ops ∷ rounds) c = (c.c_signaled ≡ 0) × IsQuiet rounds (perform_all ops c)

-- The calls of `n` polls; the latest comes first.
abbrev pub polls : Bool → ℕ → List Event → List Event
polls u zero tr = tr
polls u (suc n) tr = polls u n (if u then lock ∷ progress ∷ unlock ∷ tr else progress ∷ tr)

wait_loop-after :
    (u : Bool) (rounds rest : List (List Op)) (c : Condition) (tr : List Event)
    → IsQuiet rounds c
    → wait_loop u (rounds ++ rest) c tr
      ≡ wait_loop u rest (after rounds c) (polls u (length rounds) tr)
unfolding wait_loop after
wait_loop-after u [] rest c tr q = refl
wait_loop-after u (ops ∷ rounds) rest c tr (z, q) =
    if_true (0 == c.c_signaled) _ _ (ground arith)
    ∙ wait_loop-after u rounds rest (perform_all ops c) (poll u tr) q

-- A signal ends the loop, and without one it does not end.
wait_loop_signaled :
    (u : Bool) (rounds : List (List Op)) (c : Condition) (tr : List Event)
    → c.c_signaled ≢ 0
    → wait_loop u rounds c tr ≡ some (c, tr)
unfolding wait_loop
wait_loop_signaled u [] c tr e = if_false (0 == c.c_signaled) _ _ (ground arith)
wait_loop_signaled u (ops ∷ rest) c tr e = if_false (0 == c.c_signaled) _ _ (ground arith)

-- Without a signal pending `condition_wait` goes through the rounds in which none comes. If there
-- is still none after them, it has not returned. If there is one then, it returns whatever would
-- come later: it has taken exactly that signal and left the waiters, and made one call of the
-- progress engine for each round. With threads in use each such call stands between an unlock and a
-- lock of the mutex, so that the mutex is held again at the end; without threads the mutex is not
-- touched.
pub condition_wait_blocks :
    (u : Bool) (rounds rest : List (List Op)) (c : Condition) (tr : List Event)
    → c.c_signaled ≡ 0
    → IsQuiet rounds (begin_wait c)
    → ((after rounds (begin_wait c)).c_signaled ≡ 0 → condition_wait u rounds c tr ≡ none)
      × ((after rounds (begin_wait c)).c_signaled ≢ 0
          → condition_wait u (rounds ++ rest) c tr
            ≡ some (
              record {
                c_waiting = sub_word 32 (after rounds (begin_wait c)).c_waiting 1;
                c_signaled = sub_word 32 (after rounds (begin_wait c)).c_signaled 1;
              },
              polls u (length rounds) tr,
            ))
unfolding condition_wait wait_loop
condition_wait_blocks u rounds rest c tr z q = (
  λ e.
      ap (λ rs. condition_wait u rs c tr) (sym (append-nil rounds))
      ∙ if_false (u && not (0 == c.c_signaled)) _ _ (ground arith)
      ∙ ap taken (wait_loop-after u rounds [] (begin_wait c) tr q)
      ∙ ap taken (if_true (0 == (after rounds (begin_wait c)).c_signaled) _ _ (ground arith)),
  λ e.
      if_false (u && not (0 == c.c_signaled)) _ _ (ground arith)
      ∙ ap taken (wait_loop-after u rounds rest (begin_wait c) tr q)
      ∙ ap taken (wait_loop_signaled u rest (after rounds (begin_wait c)) _ e),
)
