-- ===== src/Mutex/Object/Life.antt =====
-- src/mutex.h and src/impl/base/mutex.c: the life of a mutex, from its constructor over scoped locks to
-- its destructor.
use mathlib.Core.Path.{subst}
use libult.Base.{
  ◌≡◌, refl, Bool, true, false, Option, none, some, List, [], ◌∷◌, ◌>>=◌, ◌∙◌, sym, ap,
}
use libult.Mutex.Object.{
  LockOps, Mutex, World, on_mutex, with_lock, mutex_constructor, mutex_destructor,
  thread_scoped_lock,
}
use libult.Mutex.Object.Scoped.{IsLock, thread_scoped_lock-IsScoped, mutex_constructor-ready}

-- What is done under a scoped lock, and whether several threads may run then.
abbrev pub Scope : Type 0 → Type 0 → Type 0 → Type 0
Scope L A D = Bool × (Mutex L A → D → D)

module _ {L A D : Type 0} (internal : LockOps L) (atomic : LockOps A) where
  -- One THREAD_SCOPED_LOCK after the other.
  unfoldable pub scoped_all : List (Scope L A D) → World L A D → Option (World L A D)
  scoped_all [] w = some w
  scoped_all ((using_threads, f) ∷ fs) w = do
    w' ←
        thread_scoped_lock internal atomic using_threads
          (λ v. some (record v { rest = f v.mutex v.rest })) w
    scoped_all fs w'

  -- OBJ_CONSTRUCT and the scoped locks
  unfoldable pub mutex_use :
      (A → A)
      → (enable_debug recursive : Bool) → List (Scope L A D)
      → World L A D
      → Option (World L A D)
  unfolding scoped_all
  mutex_use atomic_lock_init enable_debug recursive fs w = do
    m ← mutex_constructor internal atomic_lock_init enable_debug recursive w.mutex
    scoped_all fs (record w { mutex = m })

  -- OBJ_DESTRUCT behind them
  unfoldable pub mutex_life :
      (A → A)
      → (enable_debug recursive : Bool) → List (Scope L A D)
      → World L A D
      → Option (World L A D)
  unfolding mutex_use
  mutex_life atomic_lock_init enable_debug recursive fs w = do
    w' ← mutex_use atomic_lock_init enable_debug recursive fs w
    on_mutex internal atomic (mutex_destructor internal w'.mutex) w'

-- Does a thread hold the mutex?
abbrev pub taken_in : {L A D : Type 0} → (L → Bool) → Option (World L A D) → Bool
taken_in is_taken none = true
taken_in is_taken (some w) = is_taken w.mutex.m_lock

module _ {L A D : Type 0} (held : L → Bool) where
  -- The actions have led from `d` to `d'`, in order and once each, and each saw the mutex held exactly
  -- if several threads might run.
  abbrev pub Ran : List (Scope L A D) → D → D → Type 0
  Ran [] d d' = d' ≡ d
  Ran ((using_threads, f) ∷ fs) d d' =
      (seen : Mutex L A) × (held seen.m_lock ≡ using_threads) × Ran fs (f seen d) d'

module _ {L A D : Type 0} (internal : LockOps L) (atomic : LockOps A) (held ready : L → Bool)
    (is_lock : IsLock internal held ready) where
  pub scoped_all-Ran :
      (fs : List (Scope L A D)) (w : World L A D)
      → ready w.mutex.m_lock ≡ true
      → held w.mutex.m_lock ≡ false
      → (w' : World L A D) × (scoped_all internal atomic fs w ≡ some w')
        × (ready w'.mutex.m_lock ≡ true)
        × (held w'.mutex.m_lock ≡ false)
        × Ran held fs w.rest w'.rest
  unfolding scoped_all
  scoped_all-Ran [] w r e = (w, refl, r, e, refl)
  scoped_all-Ran ((using_threads, f) ∷ fs) w r e =
      let (seen, w1, goes, s) =
        thread_scoped_lock-IsScoped internal atomic held ready using_threads f w is_lock r e in
      let (w', rest, r', e', ran) = scoped_all-Ran fs w1 s.usable s.free in
      (w', rw goes rest, r', e', (seen, s.locked, subst (λ d. Ran held fs d w'.rest) s.ran ran))

  mutex_use-Ran :
      (atomic_lock_init : A → A) (enable_debug recursive : Bool) (fs : List (Scope L A D))
      (w : World L A D)
      → ready w.mutex.m_lock ≡ false
      → (w1 : World L A D) × (mutex_use internal atomic atomic_lock_init enable_debug recursive fs w
          ≡ some w1)
        × (ready w1.mutex.m_lock ≡ true)
        × Ran held fs w.rest w1.rest
  unfolding mutex_use
  mutex_use-Ran atomic_lock_init enable_debug recursive fs w e =
      let (m, built, m_ready, m_free) =
        mutex_constructor-ready internal held ready atomic_lock_init enable_debug recursive w.mutex
          is_lock e in
      let (w1, goes, w1_ready, _, ran) =
        scoped_all-Ran fs (record w { mutex = m }) m_ready m_free in
      (w1, rw built goes, w1_ready, ran)

  -- Take a mutex that is not made yet, in a debug or a release build, recursive or not, and any list
  -- of actions that leave the mutex alone, where several threads may run in some and not in others.
  -- Then OBJ_CONSTRUCT, a THREAD_SCOPED_LOCK around each action, and OBJ_DESTRUCT all go through; each
  -- action runs once, in order, and sees the mutex held exactly if several threads may run. It
  -- supposes that no thread holds the mutex when it comes to OBJ_DESTRUCT, and that the backend can
  -- destroy a mutex then.
  pub mutex_life-Ran :
      (is_taken : L → Bool) (atomic_lock_init : A → A) (enable_debug recursive : Bool)
      (fs : List (Scope L A D)) (w : World L A D)
      → ready w.mutex.m_lock ≡ false
      → ((l : L) → ready l ≡ true → is_taken l ≡ false → (k : L) × (internal.destroy l ≡ some k))
      → taken_in is_taken (mutex_use internal atomic atomic_lock_init enable_debug recursive fs w)
        ≡ false
      → (w' : World L A D) × (mutex_life internal atomic atomic_lock_init enable_debug recursive fs
            w
          ≡ some w')
        × Ran held fs w.rest w'.rest
  unfolding mutex_life mutex_destructor
  mutex_life-Ran is_taken atomic_lock_init enable_debug recursive fs w e destroys left =
      let (w1, uses, w1_ready, ran) =
        mutex_use-Ran atomic_lock_init enable_debug recursive fs w e in
      let (k, gone) =
        destroys w1.mutex.m_lock w1_ready (sym (ap (taken_in is_taken) uses) ∙ left) in
      (
        record w1 { mutex = record w1.mutex { m_lock = k } },
        ap (λ o. o >>= (λ v. on_mutex internal atomic (mutex_destructor internal v.mutex) v)) uses
            ∙ ap (λ o. on_mutex internal atomic (with_lock w1.mutex o) w1) gone,
        ran,
      )
