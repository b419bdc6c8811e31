-- ===== src/Yield/Time.antt =====
-- src/impl/pthreads/threads_pthreads_yield.c: the time to sleep, between nanoseconds and `timespec`.
use libult.Base.{
  ℕ, ◌≡◌, refl, sym, ap, ◌∙◌, ◌+◌, ◌*◌, ◌/◌, ◌%◌, ◌^◌, ◌≤◌, ◌<◌, Bool, [], ◌∷◌, ◌==◌, if◌then◌else◌,
  Bool-cases, inl, inr, arith,
}
use libult.Yield.Floating.{Doubles, IsDouble}
use libult.Yield.{
  Yield, sched_yield_fn, nanosleep_strategy, choose_fn, to_nanosecs, to_sec, to_nsec, yield_init,
  sched_yield, nanosleep, yield,
}

yield-chosen :
    (s : ℕ) (y : Yield) (h : Bool)
    → y.yield_fn ≡ choose_fn s sched_yield_fn
    → yield h y ≡ (
        if s == nanosleep_strategy
        then nanosleep y.tv_sec y.tv_nsec ∷ []
        else if h
        then sched_yield ∷ []
        else [])
unfolding yield
yield-chosen s y h e = elim (Bool-cases (s == nanosleep_strategy)) [
  | inl g ↦ rw e (rw g)
  | inr g ↦ rw e (rw g)
]

module _ {D : Type 0} (double : Doubles D) (is_double : IsDouble double) where
  -- The quotient is not rounded up to the next second: `m / 2 ^ 30` lies between.
  to_sec_lem : (n : ℕ) → n ≤ 2 ^ 52 → to_sec double n ≡ n / 1000000000
  to_sec_lem n small =
      let low =
        is_double.le-div n 1000000000 (n / 1000000000) 0 (omega arith) (omega arith) (omega arith)
          (omega arith) (omega arith) in
      let high =
        is_double.div-le n 1000000000 (n * 1073741824 / 1000000000 + 1) 30 (omega arith)
          (omega arith) (omega arith) (omega arith) (omega arith) in
      omega arith

  to_nsec_lem : (n : ℕ) → n ≤ 2 ^ 52 → to_nsec double n (n / 1000000000) ≡ n % 1000000000
  to_nsec_lem n small =
      rw (is_double.mul-of_nat (n / 1000000000) 1000000000 (omega arith))
        (rw (is_double.trunc-of_nat (n / 1000000000 * 1000000000) (omega arith)) (omega arith))

  to_nanosecs_lem :
      (sec nsec : ℕ)
      → sec * 1000000000 + nsec ≤ 2 ^ 53
      → to_nanosecs double sec nsec ≡ sec * 1000000000 + nsec
  to_nanosecs_lem sec nsec small =
      rw (to_nanosecs, is_double.mul-of_nat sec 1000000000 (omega arith))
        (rw (is_double.add-of_nat (sec * 1000000000) nsec small)
          (is_double.trunc-of_nat (sec * 1000000000 + nsec) small))

  -- The time and the function that an initialisation sets.
  time-fields :
      (set_strategy set_nanosecs : ℕ → ℕ) (y : Yield) (n : ℕ)
      → set_nanosecs (to_nanosecs double y.tv_sec y.tv_nsec) ≡ n
      → n ≤ 2 ^ 52
      → ((yield_init double set_strategy set_nanosecs y).tv_sec ≡ n / 1000000000)
        × ((yield_init double set_strategy set_nanosecs y).tv_nsec ≡ n % 1000000000)
        × ((yield_init double set_strategy set_nanosecs y).yield_fn
            ≡ choose_fn (set_strategy y.yield_strategy) y.yield_fn)
  unfolding yield_init
  time-fields set_strategy set_nanosecs y n e small =
      rw e (to_sec_lem n small, rw (to_sec_lem n small) (to_nsec_lem n small), refl)

  -- What a second initialisation is offered.
  offered :
      (set_strategy set_nanosecs : ℕ → ℕ) (y : Yield) (n : ℕ)
      → set_nanosecs (to_nanosecs double y.tv_sec y.tv_nsec) ≡ n
      → n ≤ 2 ^ 52
      → let y' = yield_init double set_strategy set_nanosecs y in
        to_nanosecs double y'.tv_sec y'.tv_nsec ≡ n
  offered set_strategy set_nanosecs y n e small =
      let t = time-fields set_strategy set_nanosecs y n e small in
      rw (t.0, t.1) (to_nanosecs_lem (n / 1000000000) (n % 1000000000) (omega arith) ∙ omega arith)

  -- With a number `n` of nanoseconds that the registration leaves, at most 2 ^ 52, the time to sleep is
  -- `n` nanoseconds with the nanoseconds in it below a second, as `nanosleep` asks for; and a yield
  -- sleeps that time if the strategy is the one for it, and otherwise calls `sched_yield`
  -- where there is one, if it did so before.
  pub yield_init_time :
      (set_strategy set_nanosecs : ℕ → ℕ) (y : Yield) (n : ℕ) (have_sched_h : Bool)
      → set_nanosecs (to_nanosecs double y.tv_sec y.tv_nsec) ≡ n
      → n ≤ 2 ^ 52
      → y.yield_fn ≡ sched_yield_fn
      → let y' = yield_init double set_strategy set_nanosecs y in
        (y'.tv_sec * 1000000000 + y'.tv_nsec ≡ n)
        × (y'.tv_nsec < 1000000000)
        × (yield have_sched_h y' ≡ (
            if set_strategy y.yield_strategy == nanosleep_strategy
            then nanosleep y'.tv_sec y'.tv_nsec ∷ []
            else if have_sched_h
            then sched_yield ∷ []
            else []))
  yield_init_time set_strategy set_nanosecs y n h e small f =
      let t = time-fields set_strategy set_nanosecs y n e small in
      (
        rw (t.0, t.1) (omega arith),
        rw t.1 (omega arith),
        yield-chosen (set_strategy y.yield_strategy) (yield_init double set_strategy set_nanosecs y)
            h (t.2 ∙ ap (choose_fn (set_strategy y.yield_strategy)) f),
      )

  -- A second initialisation is offered the nanoseconds of the first, and if it is left at that, the
  -- time to sleep is what it was.
  pub yield_init_again :
      (set_strategy set_nanosecs : ℕ → ℕ) (y : Yield) (n : ℕ)
      → set_nanosecs (to_nanosecs double y.tv_sec y.tv_nsec) ≡ n
      → n ≤ 2 ^ 52
      → let y' = yield_init double set_strategy set_nanosecs y in
        let y'' = yield_init double set_strategy (λ m. m) y' in
        (y''.yield_nsleep_nanosecs ≡ n) × (y''.tv_sec ≡ y'.tv_sec) × (y''.tv_nsec ≡ y'.tv_nsec)
  unfolding yield_init
  yield_init_again set_strategy set_nanosecs y n e small =
      let y' = yield_init double set_strategy set_nanosecs y in
      let o = offered set_strategy set_nanosecs y n e small in
      let t = time-fields set_strategy set_nanosecs y n e small in
      let t' = time-fields set_strategy (λ m. m) y' n o small in (o, t'.0 ∙ sym t.0, t'.1 ∙ sym t.1)
