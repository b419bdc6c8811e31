-- ===== src/Qthreads/SelfKey/Progress.antt =====
-- src/impl/qthreads/threads_qthreads_module.c: a thread that finds the lock free gets through.
use libult.Base.{
  ℕ, zero, suc, ◌≡◌, ◌≤◌, refl, ap, ◌∙◌, Option, none, some, List, [], ◌∷◌, ◌==◌, if◌then◌else◌,
  arith, if_true, Bool-cases, inl, inr, ==_refl,
}
use libult.Qthreads.SelfKey.{
  At, enter, locking, checking, creating, publishing, unlocking, done, Shared, goes, move,
  self_key_ensure_init,
}

-- A thread's steps alone, `n` of them.
abbrev pub alone : ℕ → ℕ → List ℕ
alone zero t = []
alone (suc n) t = t ∷ alone n t

-- The steps that a thread has left at most.
abbrev pub steps : At → ℕ
steps enter = 6
steps locking = 5
steps checking = 4
steps creating = 3
steps publishing = 2
steps unlocking = 1
steps done = 0

-- The lock is free, or the thread does not need it any more.
abbrev pub IsClear : Option ℕ → At → Type 0
IsClear lock enter = lock ≡ none
IsClear lock locking = lock ≡ none
IsClear lock a = Unit

at_self : (t : ℕ) (a : At) (s : Shared) → (goes t a s).at t ≡ a
at_self t a s = if_true (t == t) a (s.at t) (==_refl t)

short : {n : ℕ} → ¬ (suc n ≤ zero)
short = omega arith

takes :
    (t : ℕ) (s : Shared)
    → s.lock ≡ none
    → move locking t s ≡ goes t checking (record s { lock = some t })
unfolding move
takes t s e = rw e refl

next :
    (n : ℕ) (a : At) (t : ℕ) (s s' : Shared)
    → s.at t ≡ a
    → move a t s ≡ s'
    → (self_key_ensure_init (alone n t) s').at t ≡ done
    → (self_key_ensure_init (alone (suc n) t) s).at t ≡ done
unfolding self_key_ensure_init
next n a t s s' e f rest =
    ap (λ b. (self_key_ensure_init (alone n t) (move b t s)).at t) e
    ∙ ap (λ v. (self_key_ensure_init (alone n t) v).at t) f
    ∙ rest

-- A thread that takes as many steps alone as its place asks for, six at most, has returned, if the
-- lock is free or the thread is past the point where it takes it.
pub self_key_ensure_init-alone :
    (n : ℕ) (a : At) (t : ℕ) (s : Shared)
    → s.at t ≡ a
    → steps a ≤ n
    → IsClear s.lock a
    → (self_key_ensure_init (alone n t) s).at t ≡ done
unfolding self_key_ensure_init move
self_key_ensure_init-alone zero done t s e le clear = e
self_key_ensure_init-alone zero enter t s e le clear = absurd (short le)
self_key_ensure_init-alone zero locking t s e le clear = absurd (short le)
self_key_ensure_init-alone zero checking t s e le clear = absurd (short le)
self_key_ensure_init-alone zero creating t s e le clear = absurd (short le)
self_key_ensure_init-alone zero publishing t s e le clear = absurd (short le)
self_key_ensure_init-alone zero unlocking t s e le clear = absurd (short le)
self_key_ensure_init-alone (suc n) enter t s e le clear = elim (Bool-cases s.init) [
  | inl h ↦
      next n enter t s (goes t done s) e (ap (λ b. goes t (if b then done else locking) s) h)
        (self_key_ensure_init-alone n done t _ (at_self t done s) (omega arith) tt)
  | inr h ↦
      next n enter t s (goes t locking s) e (ap (λ b. goes t (if b then done else locking) s) h)
        (self_key_ensure_init-alone n locking t _ (at_self t locking s) (omega arith) clear)
]
self_key_ensure_init-alone (suc n) locking t s e le clear =
    next n locking t s (goes t checking (record s { lock = some t })) e (takes t s clear)
      (self_key_ensure_init-alone n checking t _ (at_self t checking s) (omega arith) tt)
self_key_ensure_init-alone (suc n) checking t s e le clear = elim (Bool-cases s.init) [
  | inl h ↦
      next n checking t s (goes t unlocking s) e
        (ap (λ b. goes t (if b then unlocking else creating) s) h)
        (self_key_ensure_init-alone n unlocking t _ (at_self t unlocking s) (omega arith) tt)
  | inr h ↦
      next n checking t s (goes t creating s) e
        (ap (λ b. goes t (if b then unlocking else creating) s) h)
        (self_key_ensure_init-alone n creating t _ (at_self t creating s) (omega arith) tt)
]
self_key_ensure_init-alone (suc n) creating t s e le clear =
    next n creating t s _ e refl
      (self_key_ensure_init-alone n publishing t _ (at_self t publishing s) (omega arith) tt)
self_key_ensure_init-alone (suc n) publishing t s e le clear =
    next n publishing t s _ e refl
      (self_key_ensure_init-alone n unlocking t _ (at_self t unlocking s) (omega arith) tt)
self_key_ensure_init-alone (suc n) unlocking t s e le clear =
    next n unlocking t s _ e refl
      (self_key_ensure_init-alone n done t _ (at_self t done s) (omega arith) tt)
self_key_ensure_init-alone (suc n) done t s e le clear =
    next n done t s s e refl (self_key_ensure_init-alone n done t s e (omega arith) tt)
