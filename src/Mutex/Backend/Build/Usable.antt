-- ===== src/Mutex/Backend/Build/Usable.antt =====
-- src/impl/*/threads_*_mutex.h: what the calls of the thread libraries leave, and with them the
-- initialisation and the destruction of each backend's mutex.
use libult.Base.{◌≡◌, ◌≢◌, refl, ◌∙◌, Bool, true, false, some, arith, Codes}
use libult.Mutex.Init.{
  Call, mutexattr_init, mutexattr_settype, mutexattr_destroy, mutex_init, mutex_destroy,
  internal_mutex_init, init_recursive, init_recursive_debug,
}
use libult.Mutex.Backend.{Library, Kind, pthreads, argobots, qthreads}
use libult.Mutex.Backend.Build.{
  Maker, init_argobots, init_qthreads, destroy_pthreads, destroy_argobots, destroy_qthreads,
  internal_init, internal_destroy,
}
use libult.Mutex.Backend.Contract.{prepared, settled}

-- The mutex is made, and the calling thread holds it or not.
abbrev pub IsUsable : {W : Type 0} → (held ready : W → Bool) → Bool → W → Type 0
IsUsable held ready holds w = (ready w ≡ true) × (held w ≡ holds)

-- The mutex is as before.
abbrev pub IsSame : {W : Type 0} → (held ready : W → Bool) → W → W → Type 0
IsSame held ready w w' = (ready w' ≡ ready w) × (held w' ≡ held w)

abbrev pub is_attr : Call → Bool
is_attr (mutex_init attr) = false
is_attr mutex_destroy = false
is_attr c = true

-- What the thread libraries document of their calls, where memory does not run out. `ready` says
-- whether the mutex is made, `held` whether the calling thread holds it, and `is_taken` whether
-- some thread does.
pub record IsThreadLibrary {W : Type 0} (lib : Library W) (maker : Maker W) (kind : Kind)
    (held is_taken ready : W → Bool) : Type 0 where
  pub success-zero : kind ≡ pthreads → lib.lib_success ≡ 0
  pub deadlock-ne : lib.lib_deadlock ≢ lib.lib_success
  pub attr_call :
      (c : Call) (w : W)
      → is_attr c ≡ true
      → ((maker.pthread_call c w).0 ≡ 0) × IsSame held ready w (maker.pthread_call c w).1
  pub init_call :
      (attr : Bool) (w : W)
      → ready w ≡ false
      → ((maker.pthread_call (mutex_init attr) w).0 ≡ 0)
        × IsUsable held ready false (maker.pthread_call (mutex_init attr) w).1
  pub destroy_call :
      (w : W) → ready w ≡ true → is_taken w ≡ false → (maker.pthread_call mutex_destroy w).0 ≡ 0
  pub store_initializer-made :
      (recursive : Bool) (w : W)
      → ready w ≡ false
      → IsUsable held ready false (maker.store_initializer recursive w)
  pub spinlock_init-made :
      (recursive : Bool) (w : W)
      → ready w ≡ false
      → ((maker.spinlock_init recursive w).0 ≡ lib.lib_success)
        × IsUsable held ready false (maker.spinlock_init recursive w).1
  pub lock-takes :
      (w : W)
      → IsUsable held ready false w
      → ((lib.lib_lock w).0 ≡ lib.lib_success) × IsUsable held ready true (lib.lib_lock w).1
  pub unlock-gives :
      (w : W)
      → IsUsable held ready true w
      → ((lib.lib_unlock w).0 ≡ lib.lib_success) × IsUsable held ready false (lib.lib_unlock w).1
  pub yield-same : (w : W) → IsSame held ready w (lib.lib_yield w)
  pub ensure_init-same : (w : W) → IsSame held ready w (lib.ensure_init w)

module _ {W : Type 0} (lib : Library W) (maker : Maker W) (codes : Codes) (enable_debug : Bool)
    (held is_taken ready : W → Bool) where
  -- The state behind the calls for a recursive mutex of Pthreads.
  abbrev attr_init : W → W
  attr_init w = (maker.pthread_call mutexattr_init w).1

  abbrev attr_set : W → W
  attr_set w = (maker.pthread_call mutexattr_settype (attr_init w)).1

  abbrev attr_used : W → W
  attr_used w = (maker.pthread_call (mutex_init true) (attr_set w)).1

  abbrev attr_gone : W → W
  attr_gone w = (maker.pthread_call mutexattr_destroy (attr_used w)).1

  attr_path :
      (w : W)
      → IsThreadLibrary lib maker pthreads held is_taken ready
      → ready w ≡ false
      → ((maker.pthread_call mutexattr_init w).0 ≡ 0)
        × ((maker.pthread_call mutexattr_settype (attr_init w)).0 ≡ 0)
        × ((maker.pthread_call (mutex_init true) (attr_set w)).0 ≡ 0)
        × ((maker.pthread_call mutexattr_destroy (attr_used w)).0 ≡ 0)
        × IsUsable held ready false (attr_gone w)
  attr_path w is_lib e =
      let (r1, s1) = is_lib.attr_call mutexattr_init w refl in
      let (r2, s2) = is_lib.attr_call mutexattr_settype (attr_init w) refl in
      let (r3, u3) = is_lib.init_call true (attr_set w) (s2.0 ∙ s1.0 ∙ e) in
      let (r4, s4) = is_lib.attr_call mutexattr_destroy (attr_used w) refl in
      (r1, r2, r3, r4, (s4.0 ∙ u3.0, s4.1 ∙ u3.1))

  init_pthreads-IsUsable :
      (debug recursive : Bool) (w : W)
      → codes.success ≡ 0
      → IsThreadLibrary lib maker pthreads held is_taken ready
      → ready w ≡ false
      → (k : W) × (internal_mutex_init codes maker.pthread_call debug recursive w ≡ some (0, k))
        × IsUsable held ready false k
  unfolding internal_mutex_init init_recursive_debug init_recursive
  init_pthreads-IsUsable true true w z is_lib e =
      let (r1, r2, r3, r4, u) = attr_path w is_lib e in
      (attr_gone w, ground (arith, r1, r2, r3, r4), u)
  init_pthreads-IsUsable false true w z is_lib e =
      let (r1, r2, r3, r4, u) = attr_path w is_lib e in (attr_gone w, rw (r1, r3, z) refl, u)
  init_pthreads-IsUsable debug false w z is_lib e =
      let (r, u) = is_lib.init_call false w e in
      ((maker.pthread_call (mutex_init false) w).1, rw (r, z) refl, u)

  pub init-IsUsable :
      (kind : Kind) (recursive : Bool) (w : W)
      → codes.success ≡ 0
      → IsThreadLibrary lib maker kind held is_taken ready
      → ready w ≡ false
      → (k : W) × (internal_init lib maker codes enable_debug kind recursive w ≡ some (0, k))
        × IsUsable held ready false k
  unfolding internal_init init_argobots init_qthreads
  init-IsUsable pthreads recursive w z is_lib e =
      init_pthreads-IsUsable enable_debug recursive w z is_lib e
  init-IsUsable argobots true w z is_lib e =
      (maker.store_initializer true w, rw z refl, is_lib.store_initializer-made true w e)
  init-IsUsable argobots false w z is_lib e =
      (maker.store_initializer false w, rw z refl, is_lib.store_initializer-made false w e)
  init-IsUsable qthreads recursive w z is_lib e =
      let (r, u) =
        is_lib.spinlock_init-made recursive (lib.ensure_init w)
          ((is_lib.ensure_init-same w).0 ∙ e) in
      ((maker.spinlock_init recursive (lib.ensure_init w)).1, ground (arith, r, z), u)

  pub prepared-IsUsable :
      (kind : Kind) (holds : Bool) (w : W)
      → IsThreadLibrary lib maker kind held is_taken ready
      → IsUsable held ready holds w
      → IsUsable held ready holds (prepared lib kind w)
  prepared-IsUsable pthreads holds w is_lib u = u
  prepared-IsUsable argobots holds w is_lib u = u
  prepared-IsUsable qthreads holds w is_lib (r, h) =
      let (r', h') = is_lib.ensure_init-same w in (r' ∙ r, h' ∙ h)

  pub settled-IsUsable :
      (kind : Kind) (holds : Bool) (w : W)
      → IsThreadLibrary lib maker kind held is_taken ready
      → IsUsable held ready holds w
      → IsUsable held ready holds (settled lib kind w)
  settled-IsUsable pthreads holds w is_lib u = u
  settled-IsUsable argobots holds w is_lib (r, h) =
      let (r', h') = is_lib.yield-same w in (r' ∙ r, h' ∙ h)
  settled-IsUsable qthreads holds w is_lib (r, h) =
      let (r', h') = is_lib.yield-same w in (r' ∙ r, h' ∙ h)

  pub destroy-succeeds :
      (kind : Kind) (w : W)
      → IsThreadLibrary lib maker kind held is_taken ready
      → ready w ≡ true
      → is_taken w ≡ false
      → (k : W) × (internal_destroy lib maker codes enable_debug kind w ≡ some k)
  unfolding internal_destroy destroy_pthreads destroy_argobots destroy_qthreads
  destroy-succeeds pthreads w is_lib r e =
      let ok = is_lib.destroy_call w r e in ((maker.pthread_call mutex_destroy w).1, ground arith)
  destroy-succeeds argobots w is_lib r e = (w, refl)
  destroy-succeeds qthreads w is_lib r e = (w, refl)
