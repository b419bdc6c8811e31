-- ===== src/Mutex/Init/Balance.antt =====
-- src/impl/pthreads/threads_pthreads_mutex.h: what `thread_internal_mutex_init` guarantees in both
-- builds.
use libult.Base.{
  ℕ, zero, suc, ◌≡◌, ◌≢◌, ◌↔◌, inl, inr, Bool, true, false, Option, none, some, List, [], ◌∷◌, ◌==◌,
  ◌++◌, if◌then◌else◌, arith, Codes, IsCodes, Bool-cases,
}
use libult.Mutex.Init.{
  Call, mutexattr_init, mutexattr_settype, mutex_init, mutexattr_destroy, mutex_destroy,
  init_recursive_debug, init_recursive, internal_mutex_init,
}

-- A thread library that notes the calls in their order, where `ret` says what each returns.
abbrev pub noted : (Call → ℕ) → Call → List Call → ℕ × List Call
noted ret c calls = (ret c, calls ++ c ∷ [])

-- Attribute objects that were made, less those destroyed; a destruction with none there is a fault.
abbrev pub open_after : (Call → ℕ) → ℕ → List Call → Option ℕ
open_after ret n [] = some n
open_after ret n (mutexattr_init ∷ cs) =
    open_after ret (if 0 == ret mutexattr_init then suc n else n) cs
open_after ret n (mutexattr_settype ∷ cs) = open_after ret n cs
open_after ret n (mutex_init attr ∷ cs) = open_after ret n cs
open_after ret n (mutex_destroy ∷ cs) = open_after ret n cs
open_after ret zero (mutexattr_destroy ∷ cs) = none
open_after ret (suc n) (mutexattr_destroy ∷ cs) = open_after ret n cs

-- The calls whose failure counts.
abbrev pub IsMade : Bool → Bool → (Call → ℕ) → Type 0
IsMade enable_debug false ret = ret (mutex_init false) ≡ 0
IsMade false true ret = (ret mutexattr_init ≡ 0) × (ret (mutex_init true) ≡ 0)
IsMade true true ret =
    (ret mutexattr_init ≡ 0) × (ret mutexattr_settype ≡ 0) × (ret (mutex_init true) ≡ 0)

-- A process ends only in a debug build, and only where a destruction failed. Otherwise no attribute
-- object is left, none was destroyed that was not made, and the result is success exactly if `made`.
abbrev pub IsBalanced : Codes → (Call → ℕ) → Bool → Type 0 → Option (ℕ × List Call) → Type 0
IsBalanced codes ret enable_debug made none = (enable_debug ≡ true) × (ret mutexattr_destroy ≢ 0)
IsBalanced codes ret enable_debug made (some (rc, calls)) =
    (open_after ret 0 calls ≡ some 0) × ((rc ≡ codes.success) ↔ made)

-- Whatever the thread library's calls return, in a debug and in a release build, an attribute object
-- that was made is destroyed once on every path, and none is destroyed that was not made; and the
-- function reports success exactly if the calls succeeded whose failure counts. In a debug
-- build those are all but the destruction; a release build does not look at the call that makes the
-- mutex recursive. Only a debug build in which the destruction fails ends the process.
pub internal_mutex_init-IsBalanced :
    (codes : Codes) (enable_debug recursive : Bool) (ret : Call → ℕ)
    → IsCodes codes
    → IsBalanced codes ret enable_debug
        (IsMade enable_debug recursive ret)
        (internal_mutex_init codes (noted ret) enable_debug recursive [])
unfolding internal_mutex_init init_recursive_debug init_recursive
internal_mutex_init-IsBalanced codes d false ret is_codes =
    elim (Bool-cases (0 == ret (mutex_init false))) [ inl e ↦ ground arith | inr e ↦ ground arith ]
internal_mutex_init-IsBalanced codes false true ret is_codes =
    elim (Bool-cases (0 == ret mutexattr_init)) [ inl e ↦ ground arith | inr e ↦ ground arith ]
internal_mutex_init-IsBalanced codes true true ret is_codes =
    elim (Bool-cases (0 == ret mutexattr_init)) [ inl e ↦ ground arith | inr e ↦ ground arith ]
