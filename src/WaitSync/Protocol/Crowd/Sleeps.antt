-- ===== src/WaitSync/Protocol/Crowd/Sleeps.antt =====
-- src/impl/base/wait_sync.c: how `num_thread_in_progress` decides which threads sleep.
use libult.Base.{
  total-false, total, one, total-le, ℕ, ◌≡◌, refl, sym, ap, ◌∙◌, ◌%◌, ◌^◌, ◌<◌, ◌≤◌, Bool, true,
  false, not, ◌&&◌, List, [], ◌∷◌, ◌++◌, if◌then◌else◌, Bool-cases, inl, inr, leb_int32, All, arith,
}
use libult.Usage.{Atomics, IsAtomic}
use libult.WaitSync.Protocol.{Place, is_head, State, Move, wait, wait_move, move, moves, all_init}
use libult.WaitSync.Protocol.Progress.Steps.{mover}
use libult.WaitSync.Protocol.Crowd.{
  Crowd, is_crowded, crowd_wait, crowd_move, crowd_moves, crowd_init,
}
use libult.WaitSync.Protocol.Crowd.Counted.{drives, drivers, IsCounted, crowd_move-IsCounted}

-- The protocol's steps that a step is: none where a thread adds itself or takes itself off.
abbrev steps_at : (joined crowded : Bool) → Place → ℕ → List Move
steps_at joined b Place.driving s = if joined then wait s b ∷ [] else []
steps_at joined b Place.trimming s = if joined then [] else wait s b ∷ []
steps_at joined b p s = wait s b ∷ []

module _ (at : Atomics) (max : ℕ) where
  abbrev pub steps_of : Move → Crowd → List Move
  steps_of (wait s b) c = steps_at (c.counted s) (is_crowded at max c) (c.state.sync s).wait s
  steps_of m c = m ∷ []

  unfoldable pub schedule_of : List Move → Crowd → List Move
  schedule_of [] c = []
  schedule_of (m ∷ ms) c = steps_of m c ++ schedule_of ms (crowd_move at max m c)

moves-append : (xs ys : List Move) (σ : State) → moves (xs ++ ys) σ ≡ moves ys (moves xs σ)
unfolding moves
moves-append [] ys σ = refl
moves-append (m ∷ xs) ys σ = moves-append xs ys (move m σ)

module _ (at : Atomics) (max : ℕ) where
  crowd_wait-state :
      (p : Place) (s : ℕ) (c : Crowd)
      → (c.state.sync s).wait ≡ p
      → (crowd_wait at max p s c).state
        ≡ moves (steps_at (c.counted s) (is_crowded at max c) p s) c.state
  unfolding crowd_wait moves move
  crowd_wait-state Place.driving s c e = elim (Bool-cases (c.counted s)) [
    | inl h ↦ rw h (ap (λ v. wait_move v (is_crowded at max c) s c.state) (sym e))
    | inr h ↦ rw h refl
  ]
  crowd_wait-state Place.trimming s c e = elim (Bool-cases (c.counted s)) [
    | inl h ↦ rw h refl
    | inr h ↦ rw h (ap (λ v. wait_move v (is_crowded at max c) s c.state) (sym e))
  ]
  crowd_wait-state p s c e = ap (λ v. wait_move v (is_crowded at max c) s c.state) (sym e)

  crowd_move-state :
      (m : Move) (c : Crowd) → (crowd_move at max m c).state ≡ moves (steps_of at max m c) c.state
  unfolding crowd_move moves
  crowd_move-state (wait s b) c = crowd_wait-state (c.state.sync s).wait s c refl
  crowd_move-state m c = refl

  -- A run with the count is a schedule of the protocol.
  pub crowd_moves-state :
      (ms : List Move) (c : Crowd)
      → (crowd_moves at max ms c).state ≡ moves (schedule_of at max ms c) c.state
  unfolding crowd_moves schedule_of moves
  crowd_moves-state [] c = refl
  crowd_moves-state (m ∷ ms) c =
      crowd_moves-state ms (crowd_move at max m c)
      ∙ ap (moves (schedule_of at max ms (crowd_move at max m c))) (crowd_move-state m c)
      ∙ sym (moves-append (steps_of at max m c) _ c.state)

number-le : (n : ℕ) (c : Crowd) → IsCounted n c → c.num_thread_in_progress ≤ drivers n c.state
number-le n c i =
    let t = total-le n c.counted (λ q. drives (c.state.sync q).wait) i.places in
    let small : total n (λ q. one (c.counted q)) % 2 ^ 32 ≤ total n (λ q. one (c.counted q)) =
      omega arith in
    rw i.number (omega arith)

-- What the code tests where a thread goes to sleep.
falls_tested :
    (at : Atomics) (max s : ℕ) (c : Crowd)
    → ((crowd_wait at max Place.deciding s c).state.sync s).wait ≡ Place.falling
    → (not (is_head s c.state.list) && is_crowded at max c) ≡ true
unfolding crowd_wait wait_move
falls_tested at max s c e = ground arith

-- The comparison of an `int` with a count below 2 ^ 32.
crowded-le :
    (max num x : ℕ)
    → 0 < max
    → max < 2 ^ 31
    → num ≡ x % 2 ^ 32
    → leb_int32 max num ≡ true
    → max ≤ num
crowded-le max num x pos small e h = ground arith

module _ {at : Atomics} (ok : IsAtomic at) (max n : ℕ) where
  moves-IsCounted :
      (ms : List Move) (c : Crowd)
      → All (λ m. mover m < n) ms
      → IsCounted n c
      → IsCounted n (crowd_moves at max ms c)
  unfolding crowd_moves
  moves-IsCounted [] c all i = i
  moves-IsCounted (m ∷ ms) c (l, all) i =
      moves-IsCounted ms (crowd_move at max m c) all (crowd_move-IsCounted ok max n m c l i)

module _ {at : Atomics} (ok : IsAtomic at) (max n : ℕ) (counts : ℕ → ℕ) (ms : List Move)
    (below : All (λ m. mover m < n) ms) where
  reached-IsCounted : IsCounted n (crowd_moves at max ms (crowd_init counts))
  unfolding crowd_init
  reached-IsCounted =
      moves-IsCounted ok max n ms (crowd_init counts) below
        (record { number = rw (total-false n) refl; places = λ q. refl })

  -- However the threads below `n` take their steps, `num_thread_in_progress` is the number of those that
  -- have added themselves and not taken themselves off, in 32 bits, and at most the number of those
  -- that are in the progress loop or just behind it, so that it is 0 when none is. The structures
  -- are as after a schedule of the protocol, so that what holds for all schedules holds here too.
  pub crowd_moves-IsCounted :
      let c = crowd_moves at max ms (crowd_init counts) in
      (c.num_thread_in_progress ≡ total n (λ q. one (c.counted q)) % 2 ^ 32)
      × (c.num_thread_in_progress ≤ drivers n c.state)
      × (c.state ≡ moves (schedule_of at max ms (crowd_init counts)) (all_init counts))
  unfolding crowd_init
  crowd_moves-IsCounted =
      let c = crowd_moves at max ms (crowd_init counts) in
      let i = reached-IsCounted in
      (i.number, number-le n c i, crowd_moves-state at max ms (crowd_init counts))

  -- A thread goes to sleep only where at least `max_thread_in_progress` threads are in the progress loop
  -- or just behind it, and it is not the head of the list, whatever the schedule was, where
  -- `max_thread_in_progress` is a positive `int`.
  pub crowd_wait-sleeps :
      (s : ℕ)
      → 0 < max
      → max < 2 ^ 31
      → ((crowd_moves at max ms (crowd_init counts)).state.sync s).wait ≡ Place.deciding
      → ((crowd_move at max (wait s true) (crowd_moves at max ms (crowd_init counts))).state.sync
          s).wait
        ≡ Place.falling
      → (max ≤ drivers n (crowd_moves at max ms (crowd_init counts)).state)
        × (is_head s (crowd_moves at max ms (crowd_init counts)).state.list ≡ false)
  unfolding crowd_move
  crowd_wait-sleeps s pos small here falls =
      let c = crowd_moves at max ms (crowd_init counts) in
      let i = reached-IsCounted in
      let tested =
        falls_tested at max s c
          (ap (λ p. ((crowd_wait at max p s c).state.sync s).wait) (sym here) ∙ falls) in
      let crowded : is_crowded at max c ≡ true = ground arith in
      let enough = crowded-le max c.num_thread_in_progress _ pos small i.number crowded in
      let most = number-le n c i in (omega arith, ground arith)
