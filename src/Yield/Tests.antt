-- ===== src/Yield/Tests.antt =====
-- src/impl/pthreads/threads_pthreads_yield.c on exact arithmetic, as fractions.
use native.Mathlib.Nat.{
  le-div_iff_mul-le, div-mul-le_self, mul-le-mul_right, le_of_mul-le-mul_right, one-le-pow, mul-one,
  one-mul,
}
use libult.Base.{
  ℕ, ◌≡◌, refl, ap, ◌+◌, ◌*◌, ◌/◌, ◌^◌, ◌≤◌, ◌<◌, true, [], ◌∷◌, ◌==◌, if◌then◌else◌, arith,
}
use libult.Yield.Floating.{Doubles, IsDouble}
use libult.Yield.{
  initial, nanosleep_strategy, yield_init, sched_yield, nanosleep, yield, nanosleep_fn,
}
use libult.Yield.Time.{yield_init_time, yield_init_again}

-- A numerator and a denominator.
abbrev fractions : Doubles (ℕ × ℕ)
fractions = record {
  of_nat = λ n. (n, 1);
  add = λ x y. (x.0 * y.1 + y.0 * x.1, x.1 * y.1);
  mul = λ x y. (x.0 * y.0, x.1 * y.1);
  div = λ x y. (x.0 * y.1, x.1 * y.0);
  trunc = λ x. x.0 / x.1;
}

-- The larger fraction has the larger whole part.
quotient_monotone : (a b c d : ℕ) → 0 < b → 0 < d → a * d ≤ c * b → a / b ≤ c / d
quotient_monotone a b c d pb pd le =
    let scaled = mul-le-mul_right d (div-mul-le_self a b) in
    (le-div_iff_mul-le pd).1
      (le_of_mul-le-mul_right {m = a / b * d} {n = c} {k = b} (omega arith) pb)

fractions-IsDouble : IsDouble fractions
fractions-IsDouble = record {
  trunc-of_nat = λ n l. omega arith;
  add-of_nat = λ a b l. ap (λ v. (v, 1)) (omega arith);
  mul-of_nat = λ a b l. refl;
  le-div = λ a b m k la lb lm p l.
      rw (mul-one a, one-mul b)
        (quotient_monotone m (2 ^ k) a b (one-le-pow k 2 (omega arith)) p l);
  div-le = λ a b m k la lb lm p l.
      rw (mul-one a, one-mul b)
        (quotient_monotone a b m (2 ^ k) p (one-le-pow k 2 (omega arith)) l);
}

two_seconds : yield_init fractions (λ s. 1) (λ m. 2000000005) initial ≡ record {
  yield_nsleep_nanosecs = 2000000005;
  tv_sec = 2;
  tv_nsec = 5;
  yield_strategy = 1;
  yield_fn = nanosleep_fn;
}
unfolding yield_init
two_seconds = refl

yield_init_time_example :
    (let y' = yield_init fractions (λ s. 1) (λ m. 2000000005) initial in
      (y'.tv_sec * 1000000000 + y'.tv_nsec ≡ 2000000005)
      × (y'.tv_nsec < 1000000000)
      × (yield true y' ≡ (
          if 1 == nanosleep_strategy
          then nanosleep y'.tv_sec y'.tv_nsec ∷ []
          else if true
          then sched_yield ∷ []
          else [])))
yield_init_time_example =
    yield_init_time fractions fractions-IsDouble (λ s. 1) (λ m. 2000000005) initial 2000000005 true
      refl (omega arith) refl

yield_init_again_example :
    (let y' = yield_init fractions (λ s. 1) (λ m. 2000000005) initial in
      let y'' = yield_init fractions (λ s. 1) (λ m. m) y' in
      (y''.yield_nsleep_nanosecs ≡ 2000000005)
      × (y''.tv_sec ≡ y'.tv_sec)
      × (y''.tv_nsec ≡ y'.tv_nsec))
yield_init_again_example =
    yield_init_again fractions fractions-IsDouble (λ s. 1) (λ m. 2000000005) initial 2000000005 refl
      (omega arith)
