-- ===== src/Threads/Acquire/Exclusive.antt =====
-- src/threads.h: one thread at a time is between ACQUIRE_THREAD and RELEASE_THREAD.
use mathlib.Core.Path.{subst}
use libult.Base.{
  two_owners, not_free, ℕ, ◌≡◌, ◌≢◌, refl, sym, Bool, true, false, Option, none, some, List, [],
  ◌∷◌, ◌==◌, update, arith, if_true, if_false, Bool-cases, inl, inr, ==_iff,
}
use libult.Threads.Acquire.{
  At, outside, locking, testing, waiting, inside, leaving, Section, Turn, step, wakeup, takes, move,
  turn, turns,
}

-- What holds of a thread at each place; no thread is ever at `waiting`.
abbrev pub IsAt : Option ℕ → Bool → ℕ → At → Type 0
IsAt lock act t outside = Unit
IsAt lock act t locking = Unit
IsAt lock act t testing = (lock ≡ some t) × (act ≡ false)
IsAt lock act t waiting = ⊥
IsAt lock act t inside = lock ≡ some t
IsAt lock act t leaving = (lock ≡ some t) × (act ≡ false)

pub record IsExclusive (s : Section) : Type 0 where
  pub place : (t : ℕ) → IsAt s.lock s.act t (s.at t)
  pub idle : s.lock ≡ none → s.act ≡ false

-- A thread that is elsewhere does not notice what the owner of the mutex does.
IsAt-owner :
    (a : At) (lock lock' : Option ℕ) (act act' : Bool) (t u : ℕ)
    → (t == u) ≡ false
    → lock ≡ some t
    → IsAt lock act u a
    → IsAt lock' act' u a
IsAt-owner outside l l' b b' t u ne e p = tt
IsAt-owner locking l l' b b' t u ne e p = tt
IsAt-owner testing l l' b b' t u ne e p = absurd (two_owners l t u e p.0 ne)
IsAt-owner waiting l l' b b' t u ne e p = p
IsAt-owner inside l l' b b' t u ne e p = absurd (two_owners l t u e p ne)
IsAt-owner leaving l l' b b' t u ne e p = absurd (two_owners l t u e p.0 ne)

IsAt-free :
    (a : At) (lock lock' : Option ℕ) (act : Bool) (u : ℕ)
    → lock ≡ none
    → IsAt lock act u a
    → IsAt lock' act u a
IsAt-free outside l l' b u e p = tt
IsAt-free locking l l' b u e p = tt
IsAt-free testing l l' b u e p = absurd (not_free l u e p.0)
IsAt-free waiting l l' b u e p = p
IsAt-free inside l l' b u e p = absurd (not_free l u e p)
IsAt-free leaving l l' b u e p = absurd (not_free l u e p.0)

IsAt-wakeup :
    (a : At) (lock : Option ℕ) (act : Bool) (u : ℕ) → IsAt lock act u a → IsAt lock false u a
IsAt-wakeup outside l b u p = tt
IsAt-wakeup locking l b u p = tt
IsAt-wakeup testing l b u p = (p.0, refl)
IsAt-wakeup waiting l b u p = p
IsAt-wakeup inside l b u p = p
IsAt-wakeup leaving l b u p = (p.0, refl)

-- The moved thread is at `a`, and the others are where they were.
IsAt-goes :
    (s : Section) (lock : Option ℕ) (act : Bool) (t : ℕ) (a : At)
    → IsAt lock act t a
    → ((u : ℕ) → (t == u) ≡ false → IsAt lock act u (s.at u))
    → (u : ℕ) → IsAt lock act u (update s.at t a u)
IsAt-goes s l b t a self others u = elim (Bool-cases (t == u)) [
  | inl h ↦ rw (if_true (t == u) a (s.at u) h, sym ((==_iff t u).0 h)) self
  | inr h ↦ rw (if_false (t == u) a (s.at u) h) (others u h)
]

owner-IsExclusive :
    (t : ℕ) (s : Section) (lock : Option ℕ) (act : Bool) (a : At)
    → IsExclusive s
    → s.lock ≡ some t
    → IsAt lock act t a
    → (lock ≡ none → act ≡ false)
    → IsExclusive (record { lock = lock; act = act; at = update s.at t a })
owner-IsExclusive t s lock act a ex l self idle = record {
  place =
      IsAt-goes s lock act t a self
        λ u ne. IsAt-owner (s.at u) s.lock lock s.act act t u ne l (ex.place u);
  idle = idle;
}

takes-IsExclusive :
    (lock : Option ℕ) (t : ℕ) (s : Section)
    → IsExclusive s
    → s.lock ≡ lock
    → IsExclusive (takes t lock s)
takes-IsExclusive none t s ex e = record {
  place =
      IsAt-goes s (some t) s.act t testing (refl, ex.idle e)
        λ u ne. IsAt-free (s.at u) s.lock (some t) s.act u e (ex.place u);
  idle = λ h. ground arith;
}
takes-IsExclusive (some u) t s ex e = ex

move-IsExclusive :
    (a : At) (t : ℕ) (s : Section)
    → IsExclusive s
    → IsAt s.lock s.act t a
    → IsExclusive (move a t s)
unfolding move
move-IsExclusive outside t s ex p = record {
  place = IsAt-goes s s.lock s.act t locking tt λ u ne. ex.place u;
  idle = ex.idle;
}
move-IsExclusive locking t s ex p = takes-IsExclusive s.lock t s ex refl
move-IsExclusive testing t s ex (l, off) =
    rw (if_false {A = Section} s.act _ _ off)
      (owner-IsExclusive t s s.lock true inside ex l l λ h. absurd (not_free s.lock t h l))
move-IsExclusive waiting t s ex p = absurd p
move-IsExclusive inside t s ex p =
    owner-IsExclusive t s s.lock false leaving ex p (p, refl) λ h. refl
move-IsExclusive leaving t s ex (l, off) = owner-IsExclusive t s none s.act outside ex l tt λ h. off

turn-IsExclusive : (x : Turn) (s : Section) → IsExclusive s → IsExclusive (turn x s)
unfolding turn
turn-IsExclusive (step t) s ex = move-IsExclusive (s.at t) t s ex (ex.place t)
turn-IsExclusive wakeup s ex = record {
  place = λ u. IsAt-wakeup (s.at u) s.lock s.act u (ex.place u);
  idle = λ h. refl;
}

turns-IsExclusive : (xs : List Turn) (s : Section) → IsExclusive s → IsExclusive (turns xs s)
unfolding turns
turns-IsExclusive [] s ex = ex
turns-IsExclusive (x ∷ xs) s ex = turns-IsExclusive xs (turn x s) (turn-IsExclusive x s ex)

owner_of : (s : Section) (t : ℕ) → IsExclusive s → s.at t ≡ inside → s.lock ≡ some t
owner_of s t ex e = subst (λ a. IsAt s.lock s.act t a) e (ex.place t)

-- Whatever number of threads run ACQUIRE_THREAD and RELEASE_THREAD on one mutex and flag, in whatever
-- order their steps and calls of WAKEUP_THREAD come, two threads are never between the two at once;
-- and where nothing else sets the flag, no thread ever waits in `condition_wait`, since the mutex is
-- held all the way from ACQUIRE_THREAD to RELEASE_THREAD. At the start the invariant holds.
pub turns-exclusive :
    (xs : List Turn) (s : Section) (t u : ℕ)
    → IsExclusive s
    → ((turns xs s).at t ≡ inside → (turns xs s).at u ≡ inside → t ≡ u)
      × ((turns xs s).at t ≢ waiting)
turns-exclusive xs s t u ex =
    let ex' = turns-IsExclusive xs s ex in
    (
      λ e f. ground (arith, owner_of (turns xs s) t ex' e, owner_of (turns xs s) u ex' f),
      λ e. subst (λ a. IsAt (turns xs s).lock (turns xs s).act t a) e (ex'.place t),
    )
