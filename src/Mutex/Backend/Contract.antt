-- ===== src/Mutex/Backend/Contract.antt =====
-- The three backends' mutexes keep the contract of src/mutex.h.
use libult.Base.{
  ℕ, ◌≡◌, ◌≢◌, ◌⊎◌, inl, inr, refl, Bool, true, false, some, ◌==◌, arith, Bool-cases, if_true,
  if_false, sym, ◌∙◌, ==_iff,
}
use libult.Mutex.Backend.{
  Library, Kind, pthreads, argobots, qthreads, trylock_pthreads, trylock_argobots, trylock_qthreads,
  lock_pthreads, lock_argobots, lock_qthreads, unlock_pthreads, unlock_argobots, unlock_qthreads,
  trylock_result, help_if, internal_mutex_trylock, internal_mutex_lock, internal_mutex_unlock,
}

-- What the thread libraries document, of recursive mutexes as of others. `held w` says whether the
-- calling thread holds the mutex, and `by_others w` whether another thread does.
pub record IsLibrary {W : Type 0} (lib : Library W) (kind : Kind) (held by_others : W → Bool)
    : Type 0 where
  pub success-zero : kind ≡ pthreads → lib.lib_success ≡ 0
  pub locked-ne : lib.lib_locked ≢ lib.lib_success
  pub deadlock-ne : lib.lib_deadlock ≢ lib.lib_success
  pub trylock-free : (w : W) → (lib.lib_trylock w).0 ≡ lib.lib_success → by_others w ≡ false
  pub trylock-held :
      (w : W) → (lib.lib_trylock w).0 ≡ lib.lib_success → held (lib.lib_trylock w).1 ≡ true
  pub trylock-failed :
      (w : W) → (lib.lib_trylock w).0 ≢ lib.lib_success → held (lib.lib_trylock w).1 ≡ held w
  pub lock-held : (w : W) → (lib.lib_lock w).0 ≡ lib.lib_success → held (lib.lib_lock w).1 ≡ true
  pub yield-held : (w : W) → held (lib.lib_yield w) ≡ held w
  pub init-held : (w : W) → held (lib.ensure_init w) ≡ held w
  pub init-others : (w : W) → by_others (lib.ensure_init w) ≡ by_others w
  pub help-held : (w : W) → held (lib.show_help w) ≡ held w

-- What src/mutex.h says of `mutex_trylock`: 0 if the mutex was acquired, 1 otherwise.
pub record IsTrylock {W : Type 0} (held by_others : W → Bool) (w : W) (result : ℕ × W)
    : Type 0 where
  pub zero_or_one : (result.0 ≡ 0) ⊎ (result.0 ≡ 1)
  pub acquired : result.0 ≡ 0 → (by_others w ≡ false) × (held result.1 ≡ true)
  pub otherwise : result.0 ≡ 1 → held result.1 ≡ held w

-- What a backend does before and after the library's call.
abbrev pub prepared : {W : Type 0} → Library W → Kind → W → W
prepared lib pthreads w = w
prepared lib argobots w = w
prepared lib qthreads w = lib.ensure_init w

abbrev pub settled : {W : Type 0} → Library W → Kind → W → W
settled lib pthreads w = w
settled lib argobots w = lib.lib_yield w
settled lib qthreads w = lib.lib_yield w

module _ {W : Type 0} (lib : Library W) (enable_debug : Bool) (held by_others : W → Bool) where
  IsTrylock-zero :
      (w : W)
      → lib.lib_success ≡ 0
      → IsLibrary lib pthreads held by_others
      → IsTrylock held by_others w (trylock_pthreads lib enable_debug w)
  unfolding trylock_pthreads
  IsTrylock-zero w z is_lib = elim (Bool-cases (0 == (lib.lib_trylock w).0)) [
    | inl e ↦
        let ok = sym ((==_iff 0 (lib.lib_trylock w).0).0 e) ∙ sym z in
        record {
          zero_or_one = inl (if_true (0 == (lib.lib_trylock w).0) 0 1 e);
          acquired = λ h. (is_lib.trylock-free w ok, is_lib.trylock-held w ok);
          otherwise = λ h. ground arith;
        }
    | inr e ↦ record {
      zero_or_one = inr (if_false (0 == (lib.lib_trylock w).0) 0 1 e);
      acquired = λ h. ground arith;
      otherwise = λ h. is_lib.trylock-failed w (ground arith);
    }
  ]

  help_if-held :
      (kind : Kind) (w : W)
      → IsLibrary lib kind held by_others
      → held (help_if lib enable_debug true w) ≡ held w
  help_if-held kind w is_lib = ground (arith, is_lib.help-held w)

  trylock_result-IsTrylock :
      (kind : Kind) (w : W)
      → IsLibrary lib kind held by_others
      → IsTrylock held by_others w (trylock_result lib enable_debug (lib.lib_trylock w))
  trylock_result-IsTrylock kind w is_lib =
      elim (Bool-cases (lib.lib_locked == (lib.lib_trylock w).0)) [
        | inl e ↦
            rw
              (if_true {A = ℕ × W} (lib.lib_locked == (lib.lib_trylock w).0)
                (1, (lib.lib_trylock w).1) _ e)
              (record {
                zero_or_one = inr refl;
                acquired = λ h. ground arith;
                otherwise = λ h. is_lib.trylock-failed w (ground (arith, is_lib.locked-ne));
              })
        | inr e ↦
            rw
              (if_false {A = ℕ × W} (lib.lib_locked == (lib.lib_trylock w).0)
                (1, (lib.lib_trylock w).1) _ e)
              (elim (Bool-cases (lib.lib_success == (lib.lib_trylock w).0)) [
                | inl f ↦
                    let ok = sym ((==_iff lib.lib_success (lib.lib_trylock w).0).0 f) in
                    rw
                      (if_true {A = ℕ × W} (lib.lib_success == (lib.lib_trylock w).0)
                        (0, (lib.lib_trylock w).1) _ f)
                      (record {
                        zero_or_one = inl refl;
                        acquired = λ h. (is_lib.trylock-free w ok, is_lib.trylock-held w ok);
                        otherwise = λ h. ground arith;
                      })
                | inr f ↦
                    rw
                      (if_false {A = ℕ × W} (lib.lib_success == (lib.lib_trylock w).0)
                        (0, (lib.lib_trylock w).1) _ f)
                      (record {
                        zero_or_one = inr refl;
                        acquired = λ h. ground arith;
                        otherwise = λ h.
                            help_if-held kind _ is_lib ∙ is_lib.trylock-failed w (ground arith);
                      })
              ])
      ]

  -- With each of the three backends, in a debug and in a release build, `trylock` returns 0 or 1: 0
  -- only where no other thread held the mutex and the caller now does, and 1 where the caller holds
  -- it if it did before.
  pub internal_mutex_trylock-IsTrylock :
      (kind : Kind) (w : W)
      → IsLibrary lib kind held by_others
      → IsTrylock held by_others w (internal_mutex_trylock lib enable_debug kind w)
  unfolding internal_mutex_trylock trylock_argobots trylock_qthreads
  internal_mutex_trylock-IsTrylock pthreads w is_lib =
      IsTrylock-zero w (is_lib.success-zero refl) is_lib
  internal_mutex_trylock-IsTrylock argobots w is_lib = trylock_result-IsTrylock argobots w is_lib
  internal_mutex_trylock-IsTrylock qthreads w is_lib =
      let r = trylock_result-IsTrylock qthreads (lib.ensure_init w) is_lib in
      record {
        zero_or_one = r.zero_or_one;
        acquired = λ h. (sym (is_lib.init-others w) ∙ (r.acquired h).0, (r.acquired h).1);
        otherwise = λ h. r.otherwise h ∙ is_lib.init-held w;
      }

  pub lock_done :
      (kind : Kind) (w : W)
      → (kind ≡ pthreads → lib.lib_success ≡ 0)
      → lib.lib_deadlock ≢ lib.lib_success
      → (lib.lib_lock (prepared lib kind w)).0 ≡ lib.lib_success
      → internal_mutex_lock lib enable_debug kind w ≡ some (lib.lib_lock (prepared lib kind w)).1
  unfolding internal_mutex_lock lock_pthreads lock_argobots lock_qthreads
  lock_done pthreads w zero ne ok = let z = zero refl in ground arith
  lock_done argobots w zero ne ok = ground arith
  lock_done qthreads w zero ne ok = ground arith

  pub unlock_done :
      (kind : Kind) (w : W)
      → (kind ≡ pthreads → lib.lib_success ≡ 0)
      → (lib.lib_unlock (prepared lib kind w)).0 ≡ lib.lib_success
      → internal_mutex_unlock lib enable_debug kind w
        ≡ some (settled lib kind (lib.lib_unlock (prepared lib kind w)).1)
  unfolding internal_mutex_unlock unlock_pthreads unlock_argobots unlock_qthreads
  unlock_done pthreads w zero ok = let z = zero refl in ground arith
  unlock_done argobots w zero ok = ground arith
  unlock_done qthreads w zero ok = ground arith

  prepared-held :
      (kind : Kind) (w : W)
      → IsLibrary lib kind held by_others
      → held (prepared lib kind w) ≡ held w
  prepared-held pthreads w is_lib = refl
  prepared-held argobots w is_lib = refl
  prepared-held qthreads w is_lib = is_lib.init-held w

  settled-held :
      (kind : Kind) (w : W) → IsLibrary lib kind held by_others → held (settled lib kind w) ≡ held w
  settled-held pthreads w is_lib = refl
  settled-held argobots w is_lib = is_lib.yield-held w
  settled-held qthreads w is_lib = is_lib.yield-held w

  -- Where the library's calls succeed, and the mutex is not recursive, so that one unlock gives it back,
  -- `lock` returns with the mutex held by the caller, and the `unlock` after it returns with the
  -- mutex not held by the caller, in each of the three backends and in a debug and in a release build.
  pub internal_mutex_lock-unlock :
      (kind : Kind) (w : W)
      → IsLibrary lib kind held by_others
      → ((v : W) → (lib.lib_lock v).0 ≡ lib.lib_success)
      → ((v : W) → held v ≡ true → (lib.lib_unlock v).0 ≡ lib.lib_success)
      → ((v : W) → (lib.lib_unlock v).0 ≡ lib.lib_success → held (lib.lib_unlock v).1 ≡ false)
      → (v : W) × (internal_mutex_lock lib enable_debug kind w ≡ some v)
        × (held v ≡ true)
        × (u : W) × (internal_mutex_unlock lib enable_debug kind v ≡ some u)
        × (held u ≡ false)
  internal_mutex_lock-unlock kind w is_lib locks unlocks not_recursive =
      let v = (lib.lib_lock (prepared lib kind w)).1 in
      let taken = is_lib.lock-held (prepared lib kind w) (locks _) in
      let ok = unlocks (prepared lib kind v) (prepared-held kind v is_lib ∙ taken) in
      (
        v,
        lock_done kind w is_lib.success-zero is_lib.deadlock-ne (locks _),
        taken,
        settled lib kind (lib.lib_unlock (prepared lib kind v)).1,
        unlock_done kind v is_lib.success-zero ok,
        settled-held kind _ is_lib ∙ not_recursive _ ok,
      )
