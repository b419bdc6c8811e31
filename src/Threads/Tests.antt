-- ===== src/Threads/Tests.antt =====
-- src/impl/base/create_join.c: runs with concrete handles.
use libult.Base.{
  ◌≡◌, refl, inl, true, false, List, [], ◌∷◌, arith, sample_codes, sample_codes-IsCodes,
}
use libult.Threads.{Thread, no_handle, thread_construct, Op, set_run, start, join, Life, live_run}
use libult.Threads.Live.{IsOwner, live_run-IsOwner}

abbrev new_thread : Thread
new_thread = record { t_run = 0; t_handle = no_handle }

constructed : thread_construct (record { t_run = 3; t_handle = 4 }) ≡ new_thread
unfolding thread_construct
constructed = refl

abbrev new_life : Life
new_life = record { thread = new_thread; live = [] }

-- A start without a function, a start that fails, a start, a second start, and a join.
abbrev ops : List Op
ops = start 0 5 ∷ set_run 9 ∷ start 11 no_handle ∷ start 0 7 ∷ start 0 8 ∷ join 0 ∷ start 0 6 ∷ []

debug_run :
    live_run sample_codes true ops new_life
    ≡ record { thread = record { t_run = 9; t_handle = 6 }; live = 6 ∷ [] }
unfolding live_run
debug_run = refl

-- A release build does not check: the second start loses the first thread.
release_run :
    (live_run sample_codes false (start 0 7 ∷ start 0 8 ∷ join 0 ∷ []) new_life).live ≡ 7 ∷ []
unfolding live_run
release_run = refl

live_run-IsOwner_example : IsOwner (live_run sample_codes true ops new_life)
live_run-IsOwner_example =
    live_run-IsOwner sample_codes ops new_life sample_codes-IsCodes
      (omega arith, (tt, (omega arith, (omega arith, (omega arith, (refl, (omega arith, tt)))))))
      (inl refl)
