-- ===== src/WaitSync/Protocol/Measure/Bounded.antt =====
-- src/wait_sync.h and src/impl/base/wait_sync.c: a schedule has an effect for so many steps only.
use mathlib.Core.Path.{subst}
use libult.Base.{ℕ, ◌≡◌, ◌≢◌, refl, ◌<◌, Bool, List, [], ◌∷◌, has-append, has-without, ◌∈◌, arith}
use libult.WaitSync.Protocol.{
  Place, Last, Pass, pass_move, wait_move, signal_move, report, report_failure, State, Move, wait,
  signal, complete, fail, spurious, move, all_init,
}
use libult.WaitSync.Protocol.Invariant.{IsGood}
use libult.WaitSync.Protocol.Measure.{IsStep}
use libult.WaitSync.Protocol.Measure.Decrease.{
  wait_move-IsStep, signal_move-IsStep, report-IsStep, report_failure-IsStep,
}

-- A step by a thread below `n`, or a report to it, and no wake-up from nowhere.
abbrev pub IsBelow : ℕ → Move → Type 0
IsBelow n (wait s b) = s < n
IsBelow n (signal s) = s < n
IsBelow n (complete s u) = s < n
IsBelow n (fail s status) = s < n
IsBelow n (spurious s) = ⊥

-- A schedule of such steps, each of which changes the state.
unfoldable pub AllEffective : ℕ → List Move → State → Type 0
AllEffective n [] σ = Unit
AllEffective n (m ∷ ms) σ = IsBelow n m × (move m σ ≢ σ) × AllEffective n ms (move m σ)

-- The list has threads below `n` only.
abbrev pub IsInside : ℕ → State → Type 0
IsInside n σ = (q : ℕ) → q ∈ σ.list → q < n

module _ (n : ℕ) (σ : State) (good : IsGood σ) (inside : IsInside n σ) where
  pass_move-list : (p : Pass) (s : ℕ) → (pass_move p s σ).list ≡ σ.list
  pass_move-list Pass.idle s = refl
  pass_move-list (Pass.passing h) s = ground arith
  pass_move-list (Pass.waking h) s = refl
  pass_move-list (Pass.freeing h) s = refl

  wait_move-IsInside : (p : Place) (b : Bool) (s : ℕ) → s < n → IsInside n (wait_move p b s σ)
  unfolding wait_move
  wait_move-IsInside Place.inserting b s l q h =
      ground (arith, inside q, has-append q σ.list (s ∷ []))
  wait_move-IsInside Place.unlinking b s l q h =
      ground (arith, inside q, has-without s q σ.list good.distinct)
  wait_move-IsInside Place.handing b s l q h =
      inside q (subst (λ v. q ∈ v) (pass_move-list σ.pass s) h)
  wait_move-IsInside p b s l q h = ground (arith, inside q)

  signal_move-IsInside : (l : Last) (s : ℕ) → IsInside n (signal_move l s σ)
  unfolding signal_move
  signal_move-IsInside l s q h = ground (arith, inside q)

  pub move-IsInside : (m : Move) → IsBelow n m → IsInside n (move m σ)
  unfolding move report report_failure
  move-IsInside (wait s b) l q h = wait_move-IsInside (σ.sync s).wait b s l q h
  move-IsInside (signal s) l q h = signal_move-IsInside (σ.sync s).last s q h
  move-IsInside (complete s u) l q h = ground (arith, inside q)
  move-IsInside (fail s status) l q h = ground (arith, inside q)
  move-IsInside (spurious s) l q h = absurd l

  pub move-IsStep : (m : Move) → IsBelow n m → IsStep n σ (move m σ)
  unfolding move
  move-IsStep (wait s b) l = wait_move-IsStep n σ good inside (σ.sync s).wait b s l refl
  move-IsStep (signal s) l = signal_move-IsStep n σ good inside (σ.sync s).last s l refl
  move-IsStep (complete s u) l = report-IsStep n σ good inside s u l
  move-IsStep (fail s status) l = report_failure-IsStep n σ good inside s status l
  move-IsStep (spurious s) l = absurd l

pub all_init-IsInside : (n : ℕ) (counts : ℕ → ℕ) → IsInside n (all_init counts)
unfolding all_init
all_init-IsInside n counts q h = cc
