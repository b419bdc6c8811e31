-- ===== src/WaitSync/Protocol/Measure/Ends.antt =====
-- src/wait_sync.h and src/impl/base/wait_sync.c: where a schedule that goes as far as it can ends.
use libult.Base.{
  ℕ, ◌≡◌, ◌≢◌, refl, ap, ◌∙◌, ◌<◌, true, false, List, [], ◌∷◌, ◌==◌, ltb, All, Bool-cases, inl, inr,
  arith,
}
use libult.WaitSync.Protocol.{
  Place, is_gone, State, Move, wait, signal, complete, fail, spurious, report, move, moves,
  all_init,
}
use libult.WaitSync.Protocol.Invariant.{IsGood}
use libult.WaitSync.Protocol.Safety.{move-IsGood, all_init-IsGood}
use libult.WaitSync.Protocol.Sound.{IsTimely}
use libult.WaitSync.Protocol.Progress.{completed-CanMove}
use libult.WaitSync.Protocol.Progress.Steps.{is_own, mover}
use libult.WaitSync.Protocol.Measure.Bounded.{
  IsBelow, IsInside, move-IsInside, move-IsStep, all_init-IsInside,
}

-- What holds while only threads below `n` take steps.
record IsWithin (n : ℕ) (σ : State) : Type 0 where
  pub good : IsGood σ
  pub inside : IsInside n σ
  pub waiting : (q : ℕ) → (q < n → ⊥) → (σ.sync q).wait ≡ Place.start

all_init-IsWithin : (n : ℕ) (counts : ℕ → ℕ) → IsWithin n (all_init counts)
unfolding all_init
all_init-IsWithin n counts = record {
  good = all_init-IsGood counts;
  inside = all_init-IsInside n counts;
  waiting = λ q out. refl;
}

move-IsWithin : (n : ℕ) (m : Move) {σ : State} → IsBelow n m → IsWithin n σ → IsWithin n (move m σ)
move-IsWithin n m {σ} b i = record {
  good = move-IsGood m i.good;
  inside = move-IsInside n σ i.good i.inside m b;
  waiting = λ q out. elim (move-IsStep n σ i.good i.inside m b) [
    | inl e ↦ ap (λ (v : State). (v.sync q).wait) e ∙ i.waiting q out
    | inr (l, same) ↦ same q out ∙ i.waiting q out
  ];
}

moves-IsWithin :
    (n : ℕ) (ms : List Move) {σ : State}
    → All (IsBelow n) ms
    → IsWithin n σ
    → IsWithin n (moves ms σ)
unfolding moves
moves-IsWithin n [] all i = i
moves-IsWithin n (m ∷ ms) {σ} (b, all) i =
    moves-IsWithin n ms {σ = move m σ} all (move-IsWithin n m b i)

-- A completion that is missing can be reported.
unreported : (σ : State) (s : ℕ) → ((σ.sync s).count == 0) ≡ false → move (complete s 1) σ ≢ σ
unfolding move report
unreported σ s ne h = let c = ap (λ (v : State). (v.sync s).count) h in ground arith

own-IsBelow : (n : ℕ) (m : Move) → is_own m ≡ true → mover m < n → IsBelow n m
own-IsBelow n (wait s b) o l = l
own-IsBelow n (signal s) o l = l
own-IsBelow n (complete s u) o l = cc
own-IsBelow n (fail s status) o l = cc
own-IsBelow n (spurious s) o l = cc

own-IsTimely : (m : Move) (σ : State) → is_own m ≡ true → IsTimely m σ
own-IsTimely (wait s b) σ o = tt
own-IsTimely (signal s) σ o = tt
own-IsTimely (complete s u) σ o = cc
own-IsTimely (fail s status) σ o = cc
own-IsTimely (spurious s) σ o = cc

gone_place : (p : Place) → is_gone p ≡ true → p ≡ Place.gone
gone_place Place.gone e = refl
gone_place p e = cc

active_below : (n : ℕ) (σ : State) (q : ℕ) → IsWithin n σ → (σ.sync q).wait ≢ Place.start → q < n
active_below n σ q i ne = elim (Bool-cases (ltb q n)) [
  | inl e ↦ ground arith
  | inr e ↦ absurd (ne (i.waiting q (λ l. ground arith)))
]

within-end :
    (n : ℕ) (σ : State) (s : ℕ)
    → IsWithin n σ
    → ((m : Move) → IsBelow n m → IsTimely m σ → move m σ ≡ σ)
    → s < n
    → (σ.sync s).wait ≡ Place.gone
within-end n σ s i stuck l = elim (Bool-cases (is_gone (σ.sync s).wait)) [
  | inl g ↦ gone_place (σ.sync s).wait g
  | inr g ↦ elim (Bool-cases ((σ.sync s).count == 0)) [
    | inr z ↦ absurd (unreported σ s z (stuck (complete s 1) l (ground arith)))
    | inl z ↦
        let k = i.good.each s in
        let (m, own, b, ne) =
          completed-CanMove {P = λ q. q < n} i.good (λ q. active_below n σ q i) (σ.sync s).wait s l
            refl g (ground arith) in
        absurd (ne (stuck m (own-IsBelow n m own b) (own-IsTimely m σ own)))
  ]
]

-- A schedule of the threads below `n` that goes as far as it can, so that no step of one of them and
-- no report of a missing completion changes anything, ends with all their structures released.
pub moves-end :
    (n : ℕ) (counts : ℕ → ℕ) (ms : List Move) (s : ℕ)
    → All (IsBelow n) ms
    → ((m : Move)
        → IsBelow n m
        → IsTimely m (moves ms (all_init counts))
        → move m (moves ms (all_init counts)) ≡ moves ms (all_init counts))
    → s < n
    → ((moves ms (all_init counts)).sync s).wait ≡ Place.gone
moves-end n counts ms s all stuck l =
    let i = moves-IsWithin n ms {σ = all_init counts} all (all_init-IsWithin n counts) in
    within-end n _ s i stuck l
