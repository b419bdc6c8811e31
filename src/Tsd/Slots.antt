-- ===== src/Tsd/Slots.antt =====
-- src/impl/pthreads/threads_pthreads_tsd.h, src/impl/argobots/threads_argobots_tsd.h and
-- src/impl/qthreads/threads_qthreads_tsd.h: the backends' slots, as tracked keys use them. The thread
-- libraries' own functions, for one key and with the calling thread as an argument, are the
-- parameter `Specific`.
use libult.Base.{
  ℕ, ◌≡◌, ◌≢◌, refl, ◌∙◌, sym, Ptr, ◌==◌, if◌then◌else◌, if_true, if_false, Bool-cases, inl, inr,
  ==_iff, Codes, IsCodes,
}
use libult.Tsd.{SlotOps, IsSlots}

-- `pthread_getspecific`, `ABT_key_get`, `qthread_getspecific` and the like. A read gives a code, which
-- only Argobots has, and a value.
pub record Specific (S : Type 0) : Type 0 where
  pub lib_success : ℕ
  pub get_specific : S → ℕ → ℕ × Ptr
  pub set_specific : S → ℕ → Ptr → ℕ × S
  pub ensure_init : S → S  -- `threads_argobots_ensure_init`

pub data Kind : Type 0 where
  pthreads : Kind
  argobots : Kind
  qthreads : Kind

-- 0 is the success of Pthreads and Qthreads.
abbrev pub IsCodeOf : Kind → ℕ → Type 0
IsCodeOf pthreads n = n ≡ 0
IsCodeOf argobots n = Unit
IsCodeOf qthreads n = n ≡ 0

-- What the libraries document.
pub record IsSpecific {S : Type 0} (lib : Specific S) (kind : Kind) : Type 0 where
  pub success-code : IsCodeOf kind lib.lib_success
  pub get-set :
      (s : S) (t q : ℕ) (p : Ptr)
      → (lib.set_specific s t p).0 ≡ lib.lib_success
      → (lib.get_specific (lib.set_specific s t p).1 q).1
        ≡ (if t == q then p else (lib.get_specific s q).1)
  pub get-set_failed :
      (s : S) (t q : ℕ) (p : Ptr)
      → (lib.set_specific s t p).0 ≢ lib.lib_success
      → (lib.get_specific (lib.set_specific s t p).1 q).1 ≡ (lib.get_specific s q).1
  pub get-init :
      (s : S) (q : ℕ) → (lib.get_specific (lib.ensure_init s) q).1 ≡ (lib.get_specific s q).1

module _ {S : Type 0} (codes : Codes) (lib : Specific S) where
  -- The code and the new slots, with the backend's code for a failure.
  abbrev coded : ℕ → ℕ → ℕ × S → ℕ × S
  coded ok failure (ret, s) = ((if ok == ret then codes.success else failure), s)

  -- `tsd_set` of Pthreads
  abbrev pub tsd_set_pthreads : S → ℕ → Ptr → ℕ × S
  tsd_set_pthreads s t p = coded 0 codes.err_in_errno (lib.set_specific s t p)

  -- `tsd_set` of Argobots
  abbrev pub tsd_set_argobots : S → ℕ → Ptr → ℕ × S
  tsd_set_argobots s t p =
      coded lib.lib_success codes.error (lib.set_specific (lib.ensure_init s) t p)

  -- `tsd_set` of Qthreads
  abbrev pub tsd_set_qthreads : S → ℕ → Ptr → ℕ × S
  tsd_set_qthreads s t p = coded 0 codes.error (lib.set_specific s t p)

  unfoldable pub tsd_set : Kind → S → ℕ → Ptr → ℕ × S
  tsd_set pthreads s t p = tsd_set_pthreads s t p
  tsd_set argobots s t p = tsd_set_argobots s t p
  tsd_set qthreads s t p = tsd_set_qthreads s t p

  -- `tsd_get` of Pthreads and of Qthreads: what it returns and what it stores.
  abbrev pub tsd_get_direct : S → ℕ → ℕ × Ptr
  tsd_get_direct s t = (codes.success, (lib.get_specific s t).1)

  -- `tsd_get` of Argobots
  abbrev pub tsd_get_argobots : S → ℕ → ℕ × Ptr
  tsd_get_argobots s t =
      let (ret, p) = lib.get_specific s t in
      ((if lib.lib_success == ret then codes.success else codes.error), p)

  unfoldable pub tsd_get : Kind → S → ℕ → ℕ × Ptr
  tsd_get pthreads s t = tsd_get_direct s t
  tsd_get argobots s t = tsd_get_argobots s t
  tsd_get qthreads s t = tsd_get_direct s t

  -- The slots of a backend, as tracked keys take them.
  abbrev pub slot_ops : Kind → SlotOps S
  slot_ops kind = record { tsd_get = λ s t. (tsd_get kind s t).1; tsd_set = tsd_set kind }

  -- Success is reported exactly if the library reports it.
  coded_success :
      (ok failure : ℕ) (r : ℕ × S)
      → failure ≢ codes.success
      → (coded ok failure r).0 ≡ codes.success
      → r.0 ≡ ok
  coded_success ok failure r ne e = elim (Bool-cases (ok == r.0)) [
    | inl h ↦ sym ((==_iff ok r.0).0 h)
    | inr h ↦ absurd (ne (sym (if_false (ok == r.0) _ _ h) ∙ e))
  ]

  coded_failure : (ok failure : ℕ) (r : ℕ × S) → (coded ok failure r).0 ≢ codes.success → r.0 ≢ ok
  coded_failure ok failure r ne e = ne (if_true (ok == r.0) _ _ ((==_iff ok r.0).1 (sym e)))

  read : (kind : Kind) (s : S) (q : ℕ) → (tsd_get kind s q).1 ≡ (lib.get_specific s q).1
  unfolding tsd_get
  read pthreads s q = refl
  read argobots s q = refl
  read qthreads s q = refl

  -- The backends whose success is 0.
  zero_kind :
      (kind : Kind) (failure : ℕ)
      → IsSpecific lib kind
      → lib.lib_success ≡ 0
      → failure ≢ codes.success
      → IsSlots codes (record {
        tsd_get = λ s t. (tsd_get kind s t).1;
        tsd_set = λ s t p. coded 0 failure (lib.set_specific s t p);
      })
  zero_kind kind failure is_lib z ne = record {
    get-set = λ s t q p done.
        rw (read kind (lib.set_specific s t p).1 q, read kind s q)
          (is_lib.get-set s t q p
            (coded_success 0 failure (lib.set_specific s t p) ne done ∙ sym z));
    get-set_failed = λ s t q p failed.
        rw (read kind (lib.set_specific s t p).1 q, read kind s q)
          (is_lib.get-set_failed s t q p
            λ e. coded_failure 0 failure (lib.set_specific s t p) failed (e ∙ z));
  }

  -- The slots of each of the three backends do what tracked keys rely on, if the library's calls
  -- are as documented: where `tsd_set` reports success, the value is the calling thread's and no
  -- other thread's value has changed; where it reports a failure no value has.
  pub slot_ops-IsSlots :
      (kind : Kind) → IsCodes codes → IsSpecific lib kind → IsSlots codes (slot_ops kind)
  unfolding tsd_set
  slot_ops-IsSlots pthreads is_codes is_lib =
      zero_kind pthreads codes.err_in_errno is_lib is_lib.success-code is_codes.err_in_errno-ne
  slot_ops-IsSlots argobots is_codes is_lib = record {
    get-set = λ s t q p done.
        rw
          (
            read argobots (lib.set_specific (lib.ensure_init s) t p).1 q,
            read argobots s q,
            sym (is_lib.get-init s q),
          )
          (is_lib.get-set (lib.ensure_init s) t q p (
            coded_success lib.lib_success codes.error (lib.set_specific (lib.ensure_init s) t p)
              is_codes.error-ne done));
    get-set_failed = λ s t q p failed.
        rw
          (
            read argobots (lib.set_specific (lib.ensure_init s) t p).1 q,
            read argobots s q,
            sym (is_lib.get-init s q),
          )
          (is_lib.get-set_failed (lib.ensure_init s) t q p (
            coded_failure lib.lib_success codes.error (lib.set_specific (lib.ensure_init s) t p)
              failed));
  }
  slot_ops-IsSlots qthreads is_codes is_lib =
      zero_kind qthreads codes.error is_lib is_lib.success-code is_codes.error-ne
