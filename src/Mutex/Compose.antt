-- ===== src/Mutex/Compose.antt =====
-- The mutex of src/mutex.h on each of the three backends of src/impl.
mod Tests
use libult.Base.{ℕ, ◌≡◌, refl, Bool, true, false, Option, some, List, Codes}
use libult.Mutex.Backend.{Library, Kind, internal_mutex_lock, internal_mutex_unlock}
use libult.Mutex.Backend.Contract.{prepared, settled, lock_done, unlock_done}
use libult.Mutex.Backend.Build.{Maker, internal_init, internal_destroy, backend_lock}
use libult.Mutex.Backend.Build.Usable.{
  IsThreadLibrary, init-IsUsable, prepared-IsUsable, settled-IsUsable, destroy-succeeds,
}
use libult.Mutex.Object.{LockOps, World}
use libult.Mutex.Object.Scoped.{IsLock}
use libult.Mutex.Object.Life.{Scope, Ran, taken_in, mutex_use, mutex_life, mutex_life-Ran}

module _ {W : Type 0} (lib : Library W) (maker : Maker W) (codes : Codes) (enable_debug : Bool)
    (held is_taken ready : W → Bool) where
  -- Each of the three backends, in both builds, gives src/mutex.h a lock.
  pub backend_lock-IsLock :
      (kind : Kind)
      → codes.success ≡ 0
      → IsThreadLibrary lib maker kind held is_taken ready
      → IsLock (backend_lock lib maker codes enable_debug kind) held ready
  backend_lock-IsLock kind z is_lib = record {
    init-ready = λ recursive l e.
        let (k, inits, u) =
          init-IsUsable lib maker codes enable_debug held is_taken ready kind recursive l z is_lib
            e in
        (k, inits, u.0, u.1);
    lock-held = λ l r h.
        let (ok, u) = is_lib.lock-takes (prepared lib kind l) (
          prepared-IsUsable lib maker codes enable_debug held is_taken ready kind false l is_lib
            (r, h)) in
        (
          _,
          lock_done lib enable_debug held is_taken kind l is_lib.success-zero is_lib.deadlock-ne ok,
          u.0,
          u.1,
        );
    unlock-held = λ l r h.
        let (ok, u) = is_lib.unlock-gives (prepared lib kind l) (
          prepared-IsUsable lib maker codes enable_debug held is_taken ready kind true l is_lib
            (r, h)) in
        let v =
          settled-IsUsable lib maker codes enable_debug held is_taken ready kind false _ is_lib u in
        (_, unlock_done lib enable_debug held is_taken kind l is_lib.success-zero ok, v.0, v.1);
  }

  -- The life of a mutex on each of the three backends, in a debug and in a release build, recursive or
  -- not: where the thread library keeps to its documentation and makes the mutex, OBJ_CONSTRUCT, a
  -- THREAD_SCOPED_LOCK around each of any list of actions, and OBJ_DESTRUCT all go through. Each
  -- action runs once, in order, and sees the mutex held by its thread exactly if several threads may
  -- run then. The mutex is not made before, no thread holds it when it comes to OBJ_DESTRUCT, the
  -- actions leave it alone, and SUCCESS is 0.
  pub backend_life-Ran :
      {A D : Type 0} (atomic_lock_init : A → A) (atomic : LockOps A) (kind : Kind)
      (recursive : Bool) (fs : List (Scope W A D)) (w : World W A D)
      → codes.success ≡ 0
      → IsThreadLibrary lib maker kind held is_taken ready
      → ready w.mutex.m_lock ≡ false
      → taken_in is_taken (
          mutex_use
            (backend_lock lib maker codes enable_debug kind)
            atomic
            atomic_lock_init
            enable_debug
            recursive
            fs
            w)
        ≡ false
      → (w' : World W A D) × (mutex_life
            (backend_lock lib maker codes enable_debug kind)
            atomic
            atomic_lock_init
            enable_debug
            recursive
            fs
            w
          ≡ some w')
        × Ran held fs w.rest w'.rest
  backend_life-Ran atomic_lock_init atomic kind recursive fs w z is_lib e left =
      mutex_life-Ran (backend_lock lib maker codes enable_debug kind) atomic held ready
        (backend_lock-IsLock kind z is_lib) is_taken atomic_lock_init enable_debug recursive fs w e
        (λ l r t.
          destroy-succeeds lib maker codes enable_debug held is_taken ready kind l is_lib r t)
        left
