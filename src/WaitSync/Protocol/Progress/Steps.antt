-- ===== src/WaitSync/Protocol/Progress/Steps.antt =====
-- src/wait_sync.h and src/impl/base/wait_sync.c: which threads can go on.
use mathlib.Core.Path.{subst}
use libult.Base.{ℕ, ◌≡◌, ◌≢◌, refl, sym, ap, ◌∙◌, Bool, true, false, arith}
use libult.WaitSync.Protocol.{
  Place, Last, Owner, Pass, listed, holds, is_pending, is_finished, by_own, signal_lock, pass_lock,
  State, wait_move, signal_move, pass_move, Move, wait, signal, complete, fail, spurious, move,
}
use libult.WaitSync.Protocol.Invariant.{IsPass, IsGood}
use libult.WaitSync.Protocol.Frame.{is_head-has}

-- A step that a thread takes by itself: not a report of completions, and no wake-up from nowhere.
abbrev pub is_own : Move → Bool
is_own (wait s b) = true
is_own (signal s) = true
is_own m = false

-- The thread that takes it.
abbrev pub mover : Move → ℕ
mover (wait s b) = s
mover (signal s) = s
mover (complete s u) = s
mover (fail s status) = s
mover (spurious s) = s

-- Some thread with `P` can take a step that changes the state.
abbrev pub CanMoveIn : (ℕ → Type 0) → State → Type 0
CanMoveIn P σ = (m : Move) × (is_own m ≡ true) × P (mover m) × (move m σ ≢ σ)

abbrev pub is_taken : Owner → Bool
is_taken Owner.free = false
is_taken o = true

-- Places from which a thread goes on whatever the locks are.
abbrev pub steps : Place → Bool
steps Place.start = true
steps Place.testing = true
steps Place.inserting = true
steps Place.deciding = true
steps Place.falling = true
steps Place.rechecking = true
steps Place.unlinking = true
steps p = false

held-steps : (p : Place) → holds p ≡ true → listed p ≡ true → steps p ≡ true
held-steps Place.start h l = cc
held-steps p h l = ground arith

module _ {σ : State} {P : ℕ → Type 0} (good : IsGood σ)
    (active : (q : ℕ) → (σ.sync q).wait ≢ Place.start → P q) where
  place_differs :
      (τ : State) (s : ℕ) (p : Place) → (τ.sync s).wait ≡ p → (σ.sync s).wait ≢ p → τ ≢ σ
  place_differs τ s p e ne h = ne (ap (λ (v : State). (v.sync s).wait) (sym h) ∙ e)

  wait_steps : (p : Place) (s : ℕ) → (σ.sync s).wait ≡ p → steps p ≡ true → wait_move p true s σ ≢ σ
  unfolding wait_move
  wait_steps Place.start s e k h = let f = ap (λ (v : State). (v.sync s).wait) h in ground arith
  wait_steps Place.testing s e k h = let f = ap (λ (v : State). (v.sync s).wait) h in ground arith
  wait_steps Place.inserting s e k h = let f = ap (λ (v : State). (v.sync s).wait) h in ground arith
  wait_steps Place.deciding s e k h = let f = ap (λ (v : State). (v.sync s).wait) h in ground arith
  wait_steps Place.falling s e k h = let f = ap (λ (v : State). (v.sync s).wait) h in ground arith
  wait_steps Place.rechecking s e k h =
      let f = ap (λ (v : State). (v.sync s).wait) h in ground arith
  wait_steps Place.unlinking s e k h = let f = ap (λ (v : State). (v.sync s).wait) h in ground arith
  wait_steps p s e k h = cc

  -- A thread that goes on.
  pub steps-CanMove : (s : ℕ) → P s → steps (σ.sync s).wait ≡ true → CanMoveIn P σ
  unfolding move
  steps-CanMove s i k = (wait s true, refl, i, wait_steps (σ.sync s).wait s refl k)

  -- The signaller, where the lock lets it.
  signal_steps :
      (l : Last) (s : ℕ)
      → (σ.sync s).last ≡ l
      → is_pending l ≡ false
      → is_finished l ≡ false
      → (l ≡ Last.locking → (σ.sync s).lock ≡ Owner.free)
      → signal_move l s σ ≢ σ
  unfolding signal_move
  signal_steps Last.pending s e p f lock h = cc
  signal_steps Last.locking s e p f lock h =
      let k =
        ap (λ (v : State). (v.sync s).last) (sym (ap (λ o. signal_lock o s σ) (lock refl)) ∙ h) in
      ground arith
  signal_steps Last.signalling s e p f lock h =
      let k = ap (λ (v : State). (v.sync s).last) h in ground arith
  signal_steps Last.unlocking s e p f lock h =
      let k = ap (λ (v : State). (v.sync s).last) h in ground arith
  signal_steps Last.clearing s e p f lock h =
      let k = ap (λ (v : State). (v.sync s).last) h in ground arith
  signal_steps Last.finished s e p f lock h = cc

  pub signal-CanMove :
      (s : ℕ)
      → P s
      → is_pending (σ.sync s).last ≡ false
      → is_finished (σ.sync s).last ≡ false
      → ((σ.sync s).last ≡ Last.locking → (σ.sync s).lock ≡ Owner.free)
      → CanMoveIn P σ
  unfolding move
  signal-CanMove s i p f lock = (signal s, refl, i, signal_steps (σ.sync s).last s refl p f lock)

  -- The owner of the list's lock, where it does not wait for another lock.
  pass_steps :
      (p : Pass) (v : ℕ)
      → (σ.sync v).wait ≡ Place.handing
      → σ.pass ≡ p
      → ((h : ℕ) → p ≡ Pass.passing h → (σ.sync h).lock ≡ Owner.free)
      → pass_move p v σ ≢ σ
  pass_steps Pass.idle v e q lock h = let k = ap (λ (τ : State). (τ.sync v).wait) h in ground arith
  pass_steps (Pass.passing w) v e q lock h =
      let k = ap (λ (τ : State). τ.pass) (sym (ap (λ o. pass_lock o w σ) (lock w refl)) ∙ h) in
      ground arith
  pass_steps (Pass.waking w) v e q lock h = let k = ap (λ (τ : State). τ.pass) h in ground arith
  pass_steps (Pass.freeing w) v e q lock h = let k = ap (λ (τ : State). τ.pass) h in ground arith

  pub handing-CanMove :
      (p : Pass) (v : ℕ)
      → (σ.sync v).wait ≡ Place.handing
      → σ.pass ≡ p
      → ((h : ℕ) → p ≡ Pass.passing h → (σ.sync h).lock ≡ Owner.free)
      → CanMoveIn P σ
  unfolding move wait_move
  handing-CanMove p v e q lock =
      let go : wait_move Place.handing true v σ ≢ σ =
        λ h. pass_steps p v e q lock (ap (λ a. pass_move a v σ) (sym q) ∙ h) in
      (wait v true, refl, active v (λ k. cc), λ h. go (ap (λ a. wait_move a true v σ) (sym e) ∙ h))

  -- The head of the list, to which duties are passed, does not wait for the lock of the list while it
  -- has its own.
  pub passing-CanMove :
      (o : Owner) (v h : ℕ)
      → (σ.sync v).wait ≡ Place.handing
      → σ.pass ≡ Pass.passing h
      → (σ.sync h).lock ≡ o
      → CanMoveIn P σ
  passing-CanMove Owner.free v h e q l = handing-CanMove (Pass.passing h) v e q λ w f. ground arith
  passing-CanMove Owner.own v h e q l =
      let i = good.each h in
      let on : listed (σ.sync h).wait ≡ true =
        sym i.on_list ∙ is_head-has h σ.list (subst (λ a. IsPass a σ.list) q good.heads) in
      steps-CanMove h (active h (λ k. ground arith))
        (held-steps (σ.sync h).wait (sym i.owned ∙ ap by_own l) on)
  passing-CanMove Owner.signaller v h e q l =
      let i = good.each h in
      let on : listed (σ.sync h).wait ≡ true =
        sym i.on_list ∙ is_head-has h σ.list (subst (λ a. IsPass a σ.list) q good.heads) in
      signal-CanMove h (active h (λ k. ground arith)) (ground arith) (ground arith)
        (λ f. ground arith)
  passing-CanMove Owner.passer v h e q l = let i = good.each h in absurd (ground arith)
