-- ===== src/Qthreads/SelfKey/Once.antt =====
-- src/impl/qthreads/threads_qthreads_module.c: the key is created once.
use libult.Base.{
  two_owners, not_free, ℕ, suc, ◌≡◌, refl, sym, ap, ◌∙◌, Bool, true, false, Option, none, some,
  List, [], ◌∷◌, ◌==◌, update, arith, if_true, if_false, Bool-cases, inl, inr, ==_iff,
}
use libult.Qthreads.SelfKey.{
  At, enter, locking, checking, creating, publishing, unlocking, done, Shared, goes, move,
  self_key_ensure_init,
}

-- What holds of a thread at each place.
abbrev pub IsAt : Option ℕ → Bool → ℕ → ℕ → At → Type 0
IsAt lock init created t enter = Unit
IsAt lock init created t locking = Unit
IsAt lock init created t checking = (lock ≡ some t) × (init ≡ false → created ≡ 0)
IsAt lock init created t creating = (lock ≡ some t) × (init ≡ false) × (created ≡ 0)
IsAt lock init created t publishing = (lock ≡ some t) × (init ≡ false) × (created ≡ 1)
IsAt lock init created t unlocking = (lock ≡ some t) × (init ≡ true)
IsAt lock init created t done = init ≡ true

-- Where every thread may be; an initialised key was created once, and a free lock means that
-- nobody is about to initialise it.
pub record IsOnce (s : Shared) : Type 0 where
  pub place : (t : ℕ) → IsAt s.lock s.init s.created t (s.at t)
  pub initialised : s.init ≡ true → s.created ≡ 1
  pub idle : s.lock ≡ none → s.init ≡ false → s.created ≡ 0

-- A thread that is elsewhere does not notice what the owner of the lock does.
IsAt-owner :
    (a : At) (lock lock' : Option ℕ) (init init' : Bool) (created created' t u : ℕ)
    → (t == u) ≡ false
    → lock ≡ some t
    → (init ≡ true → init' ≡ true)
    → IsAt lock init created u a
    → IsAt lock' init' created' u a
IsAt-owner enter l l' i i' c c' t u ne e keep ok = tt
IsAt-owner locking l l' i i' c c' t u ne e keep ok = tt
IsAt-owner checking l l' i i' c c' t u ne e keep ok = absurd (two_owners l t u e ok.0 ne)
IsAt-owner creating l l' i i' c c' t u ne e keep ok = absurd (two_owners l t u e ok.0 ne)
IsAt-owner publishing l l' i i' c c' t u ne e keep ok = absurd (two_owners l t u e ok.0 ne)
IsAt-owner unlocking l l' i i' c c' t u ne e keep ok = absurd (two_owners l t u e ok.0 ne)
IsAt-owner done l l' i i' c c' t u ne e keep ok = keep ok

-- Nor that a free lock is taken.
IsAt-free :
    (a : At) (init : Bool) (created t u : ℕ) (lock : Option ℕ)
    → lock ≡ none
    → IsAt lock init created u a
    → IsAt (some t) init created u a
IsAt-free enter i c t u l e ok = tt
IsAt-free locking i c t u l e ok = tt
IsAt-free checking i c t u l e ok = absurd (not_free l u e ok.0)
IsAt-free creating i c t u l e ok = absurd (not_free l u e ok.0)
IsAt-free publishing i c t u l e ok = absurd (not_free l u e ok.0)
IsAt-free unlocking i c t u l e ok = absurd (not_free l u e ok.0)
IsAt-free done i c t u l e ok = ok

-- The moved thread is at `a`, and the others are where they were.
IsAt-goes :
    (s s' : Shared) (t : ℕ) (a : At)
    → s'.at ≡ update s.at t a
    → IsAt s'.lock s'.init s'.created t a
    → ((u : ℕ) → (t == u) ≡ false → IsAt s'.lock s'.init s'.created u (s.at u))
    → (u : ℕ) → IsAt s'.lock s'.init s'.created u (s'.at u)
IsAt-goes s s' t a e self others u = elim (Bool-cases (t == u)) [
  | inl h ↦ rw (ap (λ f. f u) e ∙ if_true (t == u) a (s.at u) h, sym ((==_iff t u).0 h)) self
  | inr h ↦ rw (ap (λ f. f u) e ∙ if_false (t == u) a (s.at u) h) (others u h)
]

-- A step of the owner of the lock.
IsOnce-owner :
    (t : ℕ) (s s' : Shared) (a : At)
    → IsOnce s
    → s.lock ≡ some t
    → s'.at ≡ update s.at t a
    → IsAt s'.lock s'.init s'.created t a
    → (s.init ≡ true → s'.init ≡ true)
    → (s'.init ≡ true → s'.created ≡ 1)
    → (s'.lock ≡ none → s'.init ≡ false → s'.created ≡ 0)
    → IsOnce s'
IsOnce-owner t s s' a once l e self keep one idle = record {
  place = IsAt-goes s s' t a e self λ u ne.
      IsAt-owner (s.at u) s.lock s'.lock s.init s'.init s.created s'.created t u ne l keep
        (once.place u);
  initialised = one;
  idle = idle;
}

-- A step that only moves the thread.
goes-IsOnce :
    (a : At) (t : ℕ) (s : Shared)
    → IsOnce s
    → IsAt s.lock s.init s.created t a
    → IsOnce (goes t a s)
goes-IsOnce a t s once p = record {
  place = IsAt-goes s (goes t a s) t a refl p λ u ne. once.place u;
  initialised = once.initialised;
  idle = once.idle;
}

-- A try of the lock.
locking-IsOnce :
    (lock : Option ℕ) (t : ℕ) (s : Shared)
    → IsOnce s
    → s.lock ≡ lock
    → IsOnce (elim lock [ none ↦ goes t checking (record s { lock = some t }) | some u ↦ s ])
locking-IsOnce none t s once e = record {
  place =
      IsAt-goes s (goes t checking (record s { lock = some t })) t checking refl (refl, once.idle e)
        λ u ne. IsAt-free (s.at u) s.init s.created t u s.lock e (once.place u);
  initialised = once.initialised;
  idle = λ h. ground arith;
}
locking-IsOnce (some u) t s once e = once

move-IsOnce :
    (a : At) (t : ℕ) (s : Shared)
    → IsOnce s
    → IsAt s.lock s.init s.created t a
    → IsOnce (move a t s)
unfolding move
move-IsOnce enter t s once p = elim (Bool-cases s.init) [
  | inl h ↦ rw (if_true s.init done locking h) (goes-IsOnce done t s once h)
  | inr h ↦ rw (if_false s.init done locking h) (goes-IsOnce locking t s once tt)
]
move-IsOnce locking t s once p = locking-IsOnce s.lock t s once refl
move-IsOnce checking t s once (l, zero_yet) = elim (Bool-cases s.init) [
  | inl h ↦ rw (if_true s.init unlocking creating h) (goes-IsOnce unlocking t s once (l, h))
  | inr h ↦
      rw (if_false s.init unlocking creating h) (goes-IsOnce creating t s once (l, h, zero_yet h))
]
move-IsOnce creating t s once (l, i, z) =
    IsOnce-owner t s _ publishing once l refl (l, i, ap suc z) (λ h. h) (λ h. ground arith)
      (λ h. ground arith)
move-IsOnce publishing t s once (l, i, z) =
    IsOnce-owner t s _ unlocking once l refl (l, refl) (λ h. refl) (λ h. z) (λ h. ground arith)
move-IsOnce unlocking t s once (l, i) =
    IsOnce-owner t s _ done once l refl i (λ h. h) once.initialised (λ h f. ground arith)
move-IsOnce done t s once p = once

-- Whatever number of threads run `self_key_ensure_init`, and in whatever order their steps come, from
-- a state in which this holds, as it does at the start: the key is never created twice, every thread between the lock and the unlock is the lock's owner, and where a
-- thread has returned, the key is initialised and was created once.
pub self_key_ensure_init-IsOnce :
    (schedule : List ℕ) (s : Shared) → IsOnce s → IsOnce (self_key_ensure_init schedule s)
unfolding self_key_ensure_init
self_key_ensure_init-IsOnce [] s once = once
self_key_ensure_init-IsOnce (t ∷ ts) s once =
    self_key_ensure_init-IsOnce ts _ (move-IsOnce (s.at t) t s once (once.place t))
