-- ===== src/Threads/Live.antt =====
-- src/impl/base/create_join.c: what the checks of a debug build give.
use libult.Base.{
  ℕ, ◌≡◌, ◌≢◌, ◌⊎◌, inl, inr, null, true, false, List, [], ◌∷◌, ◌==◌, arith, Codes, IsCodes,
  Bool-cases, ==_refl,
}
use libult.Threads.{
  Thread, no_handle, thread_start, thread_join, thread_self_compare, thread_get_self, Op, set_run,
  start, join, Life, live_step, live_run,
}

-- What the documentation of the thread library says: no thread that was created has the handle -1. The
-- join of a thread succeeds.
abbrev pub IsResult : Op → Type 0
IsResult (set_run f) = Unit
IsResult (start rc handle) = rc ≡ 0 → handle ≢ no_handle
IsResult (join rc) = rc ≡ 0

abbrev pub AllResults : List Op → Type 0
AllResults [] = Unit
AllResults (op ∷ ops) = IsResult op × AllResults ops

-- No thread is running, or one is and the `thread_t` has its handle.
abbrev pub IsOwner : Life → Type 0
IsOwner s = (s.live ≡ []) ⊎ ((s.live ≡ s.thread.t_handle ∷ []) × (s.thread.t_handle ≢ no_handle))

live_step-IsOwner :
    (codes : Codes) (op : Op) (s : Life)
    → IsCodes codes
    → IsResult op
    → IsOwner s
    → IsOwner (live_step codes true op s)
unfolding live_step thread_start thread_join
live_step-IsOwner codes (set_run f) s is_codes ok own = own
live_step-IsOwner codes (start rc handle) s is_codes ok own = elim own [
  | inl e ↦ elim (Bool-cases (0 == rc)) [ inl z ↦ ground arith | inr z ↦ ground arith ]
  | inr (e, ne) ↦ ground arith
]
live_step-IsOwner codes (join rc) s is_codes ok own =
    inl (elim own [ inl e ↦ ground arith | inr (e, ne) ↦ ground arith ])

-- In a debug build no thread is lost: however the owner of a `thread_t` starts and joins it, and
-- whichever starts fail, at most one thread that it started is running, and the `thread_t` has the
-- handle of that one. No thread has the handle -1, and joins succeed.
pub live_run-IsOwner :
    (codes : Codes) (ops : List Op) (s : Life)
    → IsCodes codes
    → AllResults ops
    → IsOwner s
    → IsOwner (live_run codes true ops s)
unfolding live_run
live_run-IsOwner codes [] s is_codes ok own = own
live_run-IsOwner codes (op ∷ ops) s is_codes (ok, oks) own =
    live_run-IsOwner codes ops (live_step codes true op s) is_codes oks
      (live_step-IsOwner codes op s is_codes ok own)

-- A thread that was joined can be started again: a debug build then does what a release build does,
-- whatever `pthread_join` returned, if there is a function to run. The thread that starts it
-- is not mistaken for it before, if no thread has the handle -1.
pub thread_start-join :
    (codes : Codes) (t : Thread) (joined rc handle self : ℕ)
    → t.t_run ≢ null
    → self ≢ no_handle
    → (thread_start codes true rc handle (thread_join codes joined t).1
        ≡ thread_start codes false rc handle (thread_join codes joined t).1)
      × (thread_self_compare self (thread_join codes joined t).1 ≡ false)
      × (thread_self_compare self (thread_get_self self t) ≡ true)
unfolding thread_start thread_join thread_self_compare thread_get_self
thread_start-join codes t joined rc handle self ne other =
    (ground arith, ground arith, ==_refl self)
