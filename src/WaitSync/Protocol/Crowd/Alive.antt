-- ===== src/WaitSync/Protocol/Crowd/Alive.antt =====
-- src/impl/base/wait_sync.c: the limit `max_thread_in_progress` brings no deadlock.
use mathlib.Core.Path.{subst}
use libult.Base.{
  ℕ, ◌≡◌, ◌≢◌, refl, sym, ap, ◌∙◌, Bool, true, false, ◌==◌, if_true, ==_refl, Bool-cases, inl, inr,
  List, arith,
}
use libult.Usage.{Atomics}
use libult.WaitSync.Protocol.{Place, State, Move, wait, wait_move, move}
use libult.WaitSync.Protocol.Invariant.{IsGood}
use libult.WaitSync.Protocol.Safety.{reached-IsGood}
use libult.WaitSync.Protocol.Progress.{completed-CanMove, not_gone}
use libult.WaitSync.Protocol.Progress.Steps.{is_own, mover}
use libult.WaitSync.Protocol.Crowd.{
  Crowd, joins, parts, keeps_on, is_crowded, crowd_wait, crowd_move, crowd_moves, crowd_init,
}
use libult.WaitSync.Protocol.Crowd.Sleeps.{schedule_of, crowd_moves-state}

-- A step that changes the state does so whatever the answer to the test of the limit is.
other_answer :
    (p : Place) (b b' : Bool) (s : ℕ) (σ : State)
    → (σ.sync s).wait ≡ p
    → wait_move p b s σ ≢ σ
    → wait_move p b' s σ ≢ σ
unfolding wait_move
other_answer Place.deciding b b' s σ e ne h =
    let f = ap (λ (v : State). (v.sync s).wait) h in ground arith
other_answer p b b' s σ e ne h = ne h

module _ (at : Atomics) (max : ℕ) (c : Crowd) where
  marked : (s : ℕ) (b : Bool) (d : Crowd) → c.counted s ≢ b → d.counted s ≡ b → d ≢ c
  marked s b d ne e h = ne (sym (ap (λ (v : Crowd). v.counted s) h) ∙ e)

  keeps_on-changes :
      (p : Place) (b : Bool) (s : ℕ)
      → (c.state.sync s).wait ≡ p
      → wait_move p b s c.state ≢ c.state
      → keeps_on at max p s c ≢ c
  keeps_on-changes p b s e ne h =
      other_answer p b (is_crowded at max c) s c.state e ne (ap (λ (v : Crowd). v.state) h)

  crowd_wait-changes :
      (p : Place) (b : Bool) (s : ℕ)
      → (c.state.sync s).wait ≡ p
      → wait_move p b s c.state ≢ c.state
      → crowd_wait at max p s c ≢ c
  unfolding crowd_wait
  crowd_wait-changes Place.driving b s e ne = elim (Bool-cases (c.counted s)) [
    | inl k ↦ rw k (keeps_on-changes Place.driving b s e ne)
    | inr k ↦ rw k (
        marked s true (joins at s c) (ground arith)
          (if_true (s == s) true (c.counted s) (==_refl s)))
  ]
  crowd_wait-changes Place.trimming b s e ne = elim (Bool-cases (c.counted s)) [
    | inl k ↦ rw k (
        marked s false (parts at s c) (ground arith)
          (if_true (s == s) false (c.counted s) (==_refl s)))
    | inr k ↦ rw k (keeps_on-changes Place.trimming b s e ne)
  ]
  crowd_wait-changes p b s e ne = keeps_on-changes p b s e ne

  crowd_move-changes :
      (m : Move) → is_own m ≡ true → move m c.state ≢ c.state → crowd_move at max m c ≢ c
  unfolding crowd_move move
  crowd_move-changes (wait s b) o ne = crowd_wait-changes (c.state.sync s).wait b s refl ne
  crowd_move-changes m o ne = λ h. ne (ap (λ (v : Crowd). v.state) h)

-- There is no deadlock, and the limit on the threads in the progress loop brings none: in every state
-- that the threads reach, whatever `max_thread_in_progress` is, as long as a thread that has begun to
-- wait, and whose completions have all been reported, has not released its structure, a thread that
-- has begun to wait, or the signaller of its structure, can take a step of its own that changes
-- something, where `num_thread_in_progress` decides who goes to sleep.
pub crowd_moves-alive :
    (at : Atomics) (max : ℕ) (counts : ℕ → ℕ) (ms : List Move) (s : ℕ)
    → ((crowd_moves at max ms (crowd_init counts)).state.sync s).count ≡ 0
    → ((crowd_moves at max ms (crowd_init counts)).state.sync s).wait ≢ Place.start
    → ((crowd_moves at max ms (crowd_init counts)).state.sync s).wait ≢ Place.gone
    → (m : Move) × (is_own m ≡ true)
      × (((crowd_moves at max ms (crowd_init counts)).state.sync (mover m)).wait ≢ Place.start)
      × (crowd_move at max m (crowd_moves at max ms (crowd_init counts))
          ≢ crowd_moves at max ms (crowd_init counts))
unfolding crowd_init
crowd_moves-alive at max counts ms s zero_count begun present =
    let c = crowd_moves at max ms (crowd_init counts) in
    let run = crowd_moves-state at max ms (crowd_init counts) in
    let good : IsGood c.state =
      subst IsGood (sym run) (reached-IsGood counts (schedule_of at max ms (crowd_init counts))) in
    let i = good.each s in
    let (m, own, started, changes) =
      completed-CanMove {P = λ q. (c.state.sync q).wait ≢ Place.start} good (λ q k. k)
        (c.state.sync s).wait s begun refl (not_gone _ present) (ground arith) in
    (m, own, started, crowd_move-changes at max c m own changes)
