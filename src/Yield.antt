-- ===== src/Yield.antt =====
-- src/impl/pthreads/threads_pthreads_yield.c: the choice between `sched_yield` and `nanosleep`, and the
-- time to sleep. The registration of a variable, which is outside the repository, may change it: what
-- it does is an argument. Arithmetic on `double` is the parameter `Doubles`.
pub mod Floating
pub mod Time
mod Tests
use libult.Base.{ℕ, Bool, true, false, List, [], ◌∷◌, ◌==◌, if◌then◌else◌, sub_word}
use libult.Yield.Floating.{Doubles}

-- The value of `PTHREADS_YIELD_NANOSLEEP` in `threads_pthreads_yield_strategy_t`.
abbrev pub nanosleep_strategy : ℕ
nanosleep_strategy = 1

-- What `threads_pthreads_yield_fn` points to.
pub data YieldFn : Type 0 where
  sched_yield_fn : YieldFn
  nanosleep_fn : YieldFn

-- The variables of the file; `tv_sec` and `tv_nsec` are the fields of `yield_nsleep_time`.
pub record Yield : Type 0 where
  pub yield_nsleep_nanosecs : ℕ
  pub tv_sec : ℕ
  pub tv_nsec : ℕ
  pub yield_strategy : ℕ
  pub yield_fn : YieldFn

-- Their initial values.
abbrev pub initial : Yield
initial = record {
  yield_nsleep_nanosecs = 0;
  tv_sec = 0;
  tv_nsec = 1;
  yield_strategy = 0;
  yield_fn = sched_yield_fn;
}

-- The switch on the strategy.
abbrev pub choose_fn : ℕ → YieldFn → YieldFn
choose_fn strategy fn = if strategy == nanosleep_strategy then nanosleep_fn else fn

module _ {D : Type 0} (double : Doubles D) where
  -- The constant `1E9`.
  abbrev pub billion : D
  billion = double.of_nat 1000000000

  -- `(tv_sec * 1E9) + tv_nsec`, as a `uint64_t`
  abbrev pub to_nanosecs : ℕ → ℕ → ℕ
  to_nanosecs sec nsec =
      double.trunc (double.add (double.mul (double.of_nat sec) billion) (double.of_nat nsec))

  -- `nanosecs / 1E9`, as a `time_t`
  abbrev pub to_sec : ℕ → ℕ
  to_sec nanosecs = double.trunc (double.div (double.of_nat nanosecs) billion)

  -- `nanosecs - (uint64_t)(sec * 1E9)`
  abbrev pub to_nsec : ℕ → ℕ → ℕ
  to_nsec nanosecs sec =
      sub_word 64 nanosecs (double.trunc (double.mul (double.of_nat sec) billion))

  -- `threads_pthreads_yield_init`
  unfoldable pub yield_init : (set_strategy set_nanosecs : ℕ → ℕ) → Yield → Yield
  yield_init set_strategy set_nanosecs y =
      let strategy = set_strategy y.yield_strategy in
      let nanosecs = set_nanosecs (to_nanosecs y.tv_sec y.tv_nsec) in
      let sec = to_sec nanosecs in
      record {
        yield_nsleep_nanosecs = nanosecs;
        tv_sec = sec;
        tv_nsec = to_nsec nanosecs sec;
        yield_strategy = strategy;
        yield_fn = choose_fn strategy y.yield_fn;
      }

-- The calls of the system.
pub data Call : Type 0 where
  sched_yield : Call
  nanosleep : ℕ → ℕ → Call

-- The call through `threads_pthreads_yield_fn`, of `thread_pthreads_yield_sched_yield` or of
-- `thread_pthreads_yield_nanosleep`.
unfoldable pub yield : (have_sched_h : Bool) → Yield → List Call
yield have_sched_h y = run y.yield_fn
  where
    run : YieldFn → List Call
    run sched_yield_fn = if have_sched_h then sched_yield ∷ [] else []
    run nanosleep_fn = nanosleep y.tv_sec y.tv_nsec ∷ []
