-- ===== src/Threads/Acquire/Tests.antt =====
-- src/threads.h: two threads at ACQUIRE_THREAD.
use libult.Base.{ℕ, ◌≡◌, ◌≢◌, refl, false, none, List, [], ◌∷◌}
use libult.Threads.Acquire.{outside, inside, waiting, Section, Turn, step, wakeup, turns}
use libult.Threads.Acquire.Exclusive.{IsExclusive, turns-exclusive}

abbrev start : Section
start = record { lock = none; act = false; at = λ t. outside }

start-IsExclusive : IsExclusive start
start-IsExclusive = record { place = λ t. tt; idle = λ h. refl }

-- Thread 1 gets in, thread 2 tries, and a wake-up comes.
abbrev schedule : List Turn
schedule = step 1 ∷ step 2 ∷ step 1 ∷ step 1 ∷ step 2 ∷ wakeup ∷ step 2 ∷ []

first_inside : (turns schedule start).at 1 ≡ inside
unfolding turns
first_inside = refl

abbrev one : ℕ
one = 1

abbrev two : ℕ
two = 2

turns-exclusive_example :
    ((turns schedule start).at 1 ≡ inside → (turns schedule start).at 2 ≡ inside → one ≡ two)
    × ((turns schedule start).at 1 ≢ waiting)
turns-exclusive_example = turns-exclusive schedule start one two start-IsExclusive
