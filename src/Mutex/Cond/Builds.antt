-- ===== src/Mutex/Cond/Builds.antt =====
-- src/impl/base/mutex.c: a debug and a release build of the condition variables.
use libult.Base.{
  ℕ, ◌≡◌, refl, inl, inr, Bool, true, false, ◌&&◌, none, some, List, [], ◌∷◌, ◌==◌, if◌then◌else◌,
  Bool-cases, Codes,
}
use libult.Mutex.Cond.{
  CondLibrary, Backend, pthreads, argobots, Op, init, wait, broadcast, signal, destroy, cond_op,
  cond_ops, check, then_success,
}

module _ {W : Type 0} (lib : CondLibrary W) (codes : Codes) where
  -- The state behind an operation.
  abbrev pub after : Backend → Op → W → W
  after pthreads init w = (lib.lib_cond_init w).1
  after argobots init w = lib.copy_initializer w
  after b wait w = (lib.lib_cond_wait w).1
  after b broadcast w = (lib.lib_cond_broadcast w).1
  after b signal w = (lib.lib_cond_signal w).1
  after pthreads destroy w = (lib.lib_cond_destroy w).1
  after argobots destroy w = w

  -- What an operation returns.
  abbrev pub reported : Backend → Op → W → ℕ
  reported pthreads init w =
      if 0 == (lib.lib_cond_init w).0 then codes.success else codes.err_in_errno
  reported b op w = codes.success

  abbrev pub no_error : Backend → ℕ
  no_error pthreads = 0
  no_error argobots = lib.abt_success

  -- Did the library do what it was called for? What `init` finds is reported, and not asked here.
  abbrev pub succeeds : Backend → Op → W → Bool
  succeeds b init w = true
  succeeds b wait w = no_error b == (lib.lib_cond_wait w).0
  succeeds b broadcast w = no_error b == (lib.lib_cond_broadcast w).0
  succeeds b signal w = no_error b == (lib.lib_cond_signal w).0
  succeeds pthreads destroy w = 0 == (lib.lib_cond_destroy w).0
  succeeds argobots destroy w = true

  abbrev pub outcome : Backend → List Op → W → List ℕ × W
  outcome b [] w = ([], w)
  outcome b (op ∷ ops) w =
      let rest = outcome b ops (after b op w) in (reported b op w ∷ rest.0, rest.1)

  abbrev pub all_succeed : Backend → List Op → W → Bool
  all_succeed b [] w = true
  all_succeed b (op ∷ ops) w = succeeds b op w && all_succeed b ops (after b op w)

  cond_op-release :
      (b : Backend) (op : Op) (w : W)
      → cond_op lib codes false b op w ≡ some (reported b op w, after b op w)
  unfolding cond_op
  cond_op-release pthreads init w = refl
  cond_op-release argobots init w = refl
  cond_op-release pthreads wait w = refl
  cond_op-release argobots wait w = refl
  cond_op-release pthreads broadcast w = refl
  cond_op-release argobots broadcast w = refl
  cond_op-release pthreads signal w = refl
  cond_op-release argobots signal w = refl
  cond_op-release pthreads destroy w = refl
  cond_op-release argobots destroy w = refl

  checked :
      (e : ℕ) (p : ℕ × W)
      → then_success lib codes true (check lib codes true e p)
        ≡ (if e == p.0 then some (codes.success, p.1) else none)
  checked e p = elim (Bool-cases (e == p.0)) [ inl h ↦ rw h | inr h ↦ rw h ]

  cond_op-debug :
      (b : Backend) (op : Op) (w : W)
      → cond_op lib codes true b op w
        ≡ (if succeeds b op w then some (reported b op w, after b op w) else none)
  unfolding cond_op
  cond_op-debug pthreads init w = refl
  cond_op-debug argobots init w = refl
  cond_op-debug pthreads wait w = checked 0 (lib.lib_cond_wait w)
  cond_op-debug argobots wait w = checked lib.abt_success (lib.lib_cond_wait w)
  cond_op-debug pthreads broadcast w = checked 0 (lib.lib_cond_broadcast w)
  cond_op-debug argobots broadcast w = checked lib.abt_success (lib.lib_cond_broadcast w)
  cond_op-debug pthreads signal w = checked 0 (lib.lib_cond_signal w)
  cond_op-debug argobots signal w = checked lib.abt_success (lib.lib_cond_signal w)
  cond_op-debug pthreads destroy w = checked 0 (lib.lib_cond_destroy w)
  cond_op-debug argobots destroy w = refl

  -- Whatever sequence of operations comes: a release build goes through all of it, and reports
  -- success for each but the initialisation, whatever the thread library returned; a debug build
  -- does and reports the same if all the library's calls succeed, and ends the process if one
  -- fails.
  pub cond_ops-builds :
      (b : Backend) (ops : List Op) (w : W)
      → (cond_ops lib codes false b ops w ≡ some (outcome b ops w))
        × (cond_ops lib codes true b ops w
            ≡ (if all_succeed b ops w then some (outcome b ops w) else none))
  unfolding cond_ops
  cond_ops-builds b [] w = (refl, refl)
  cond_ops-builds b (op ∷ ops) w =
      let ih = cond_ops-builds b ops (after b op w) in
      (
        rw (cond_op-release b op w) (rw ih.0),
        elim (Bool-cases (succeeds b op w)) [
          | inl h ↦ rw (cond_op-debug b op w) (
              rw h (
                rw ih.1 elim (Bool-cases (all_succeed b ops (after b op w))) [
                  | inl g ↦ rw g
                  | inr g ↦ rw g
                ]))
          | inr h ↦ rw (cond_op-debug b op w) (rw h)
        ],
      )
