-- ===== src/Tsd/Keys.antt =====
-- src/impl/pthreads/threads_pthreads_module.c, src/impl/argobots/threads_argobots_module.c and
-- src/impl/qthreads/threads_qthreads_module.c: `tsd_key_create`; and `tsd_key_delete` of the backends'
-- headers. The thread libraries' own functions are the parameter `KeyLibrary`; `W` is the state of the
-- process.
mod Tests
use libult.Base.{
  ℕ, suc, ◌≡◌, ◌≢◌, refl, Bool, true, false, ◌||◌, ◌==◌, ==_iff, if◌then◌else◌, Bool-cases, inl,
  inr, Codes, IsCodes, arith,
}
use libult.Tsd.Slots.{Kind, pthreads, argobots, qthreads, IsCodeOf}

pub record KeyLibrary (W : Type 0) : Type 0 where
  pub lib_success : ℕ  -- 0 or `ABT_SUCCESS`
  pub create_key : W → ℕ × W  -- `pthread_key_create`, `ABT_key_create`, `qthread_key_create`
  pub delete_key : W → ℕ × W  -- `pthread_key_delete`, `ABT_key_free`, `qthread_key_delete`
  pub ensure_init : W → W  -- `threads_argobots_ensure_init`, `threads_ensure_init_qthreads`

-- What the libraries document, with the number of keys that there are.
pub record IsKeyLibrary {W : Type 0} (lib : KeyLibrary W) (kind : Kind) (keys : W → ℕ)
    : Type 0 where
  pub success-code : IsCodeOf kind lib.lib_success
  pub created :
      (w : W) → (lib.create_key w).0 ≡ lib.lib_success → keys (lib.create_key w).1 ≡ suc (keys w)
  pub not_created :
      (w : W) → (lib.create_key w).0 ≢ lib.lib_success → keys (lib.create_key w).1 ≡ keys w
  pub deleted :
      (w : W) → (lib.delete_key w).0 ≡ lib.lib_success → suc (keys (lib.delete_key w).1) ≡ keys w
  pub not_deleted :
      (w : W) → (lib.delete_key w).0 ≢ lib.lib_success → keys (lib.delete_key w).1 ≡ keys w
  pub keys-init : (w : W) → keys (lib.ensure_init w) ≡ keys w

module _ {W : Type 0} (codes : Codes) (lib : KeyLibrary W) where
  -- `tsd_key_create` of Pthreads
  abbrev pub key_create_pthreads : W → ℕ × W
  key_create_pthreads w =
      let (rc, w) = lib.create_key w in ((if 0 == rc then codes.success else codes.err_in_errno), w)

  -- `tsd_key_create` of Argobots
  abbrev pub key_create_argobots : W → ℕ × W
  key_create_argobots w =
      let (rc, w) = lib.create_key (lib.ensure_init w) in
      ((if lib.lib_success == rc then codes.success else codes.error), w)

  -- `tsd_key_create` of Qthreads
  abbrev pub key_create_qthreads : W → ℕ × W
  key_create_qthreads w = let (_, w) = lib.create_key (lib.ensure_init w) in (codes.success, w)

  -- `tsd_key_delete` of Pthreads
  abbrev pub key_delete_pthreads : W → ℕ × W
  key_delete_pthreads w =
      let (ret, w) = lib.delete_key w in
      ((if 0 == ret then codes.success else codes.err_in_errno), w)

  -- `tsd_key_delete` of Argobots
  abbrev pub key_delete_argobots : W → ℕ × W
  key_delete_argobots w =
      let (ret, w) = lib.delete_key w in
      ((if lib.lib_success == ret then codes.success else codes.error), w)

  -- `tsd_key_delete` of Qthreads
  abbrev pub key_delete_qthreads : W → ℕ × W
  key_delete_qthreads w =
      let (ret, w) = lib.delete_key w in ((if 0 == ret then codes.success else codes.error), w)

  -- Those of the backend that the build has.
  unfoldable pub key_create : Kind → W → ℕ × W
  key_create pthreads w = key_create_pthreads w
  key_create argobots w = key_create_argobots w
  key_create qthreads w = key_create_qthreads w

  unfoldable pub key_delete : Kind → W → ℕ × W
  key_delete pthreads w = key_delete_pthreads w
  key_delete argobots w = key_delete_argobots w
  key_delete qthreads w = key_delete_qthreads w

-- What is left to the library's call.
abbrev pub prepared : {W : Type 0} → KeyLibrary W → Kind → W → W
prepared lib pthreads w = w
prepared lib argobots w = lib.ensure_init w
prepared lib qthreads w = lib.ensure_init w

-- Does the backend drop what the creation returned?
abbrev pub drops_code : Kind → Bool
drops_code pthreads = false
drops_code argobots = false
drops_code qthreads = true

module _ {W : Type 0} {codes : Codes} {lib : KeyLibrary W} {keys : W → ℕ}
    (is_codes : IsCodes codes) where
  create_keys :
      (kind : Kind) (w : W)
      → IsKeyLibrary lib kind keys
      → let made = lib.lib_success == (lib.create_key (prepared lib kind w)).0 in
        (((key_create codes lib kind w).0 == codes.success) ≡ (made || drops_code kind))
        × (keys (key_create codes lib kind w).1 ≡ (if made then suc (keys w) else keys w))
  unfolding key_create
  create_keys pthreads w is_lib =
      ground (
        arith,
        is_lib.success-code,
        is_lib.created w,
        is_lib.not_created w,
        is_codes.err_in_errno-ne,
      )
  create_keys argobots w is_lib =
      let w' = lib.ensure_init w in
      ground
        (arith, is_lib.created w', is_lib.not_created w', is_lib.keys-init w, is_codes.error-ne)
  create_keys qthreads w is_lib =
      let w' = lib.ensure_init w in
      ground (arith, is_lib.created w', is_lib.not_created w', is_lib.keys-init w)

  delete_keys :
      (kind : Kind) (w : W)
      → IsKeyLibrary lib kind keys
      → let removed = lib.lib_success == (lib.delete_key w).0 in
        (((key_delete codes lib kind w).0 == codes.success) ≡ removed)
        × (keys w ≡ (
            if removed
            then suc (keys (key_delete codes lib kind w).1)
            else keys (key_delete codes lib kind w).1))
  unfolding key_delete
  delete_keys pthreads w is_lib =
      ground (
        arith,
        is_lib.success-code,
        is_lib.deleted w,
        is_lib.not_deleted w,
        is_codes.err_in_errno-ne,
      )
  delete_keys argobots w is_lib =
      ground (arith, is_lib.deleted w, is_lib.not_deleted w, is_codes.error-ne)
  delete_keys qthreads w is_lib =
      ground (arith, is_lib.success-code, is_lib.deleted w, is_lib.not_deleted w, is_codes.error-ne)

  -- On each backend there is one key more after `tsd_key_create` exactly if the library made one, and
  -- one less after `tsd_key_delete` exactly if it removed one. The deletion reports success exactly
  -- then on every backend, and so does the creation on Pthreads and Argobots; on Qthreads the
  -- creation reports success in any case.
  pub key_calls_reported :
      (kind : Kind) (w : W)
      → IsKeyLibrary lib kind keys
      → let made = lib.lib_success == (lib.create_key (prepared lib kind w)).0 in
        let removed = lib.lib_success == (lib.delete_key w).0 in
        (((key_create codes lib kind w).0 == codes.success) ≡ (made || drops_code kind))
        × (keys (key_create codes lib kind w).1 ≡ (if made then suc (keys w) else keys w))
        × (((key_delete codes lib kind w).0 == codes.success) ≡ removed)
        × (keys w ≡ (
            if removed
            then suc (keys (key_delete codes lib kind w).1)
            else keys (key_delete codes lib kind w).1))
  key_calls_reported kind w is_lib =
      let c = create_keys kind w is_lib in let d = delete_keys kind w is_lib in (c.0, c.1, d.0, d.1)
