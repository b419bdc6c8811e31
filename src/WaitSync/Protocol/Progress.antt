-- ===== src/WaitSync/Protocol/Progress.antt =====
-- src/wait_sync.h and src/impl/base/wait_sync.c: the locks never stop everybody.
pub mod Steps
mod Owners
use mathlib.Core.Path.{subst}
use libult.Base.{
  ℕ, ◌≡◌, ◌≢◌, ◌⊎◌, refl, sym, ap, ◌∙◌, Bool, true, false, not, ◌&&◌, Option, none, some, List,
  ◌==◌, if◌then◌else◌, if_true, if_false, Bool-cases, inl, inr, ==_refl, update, arith,
}
use libult.WaitSync.Protocol.{
  Place, Last, Owner, Pass, is_head, owner, listed, holds, holds_list, is_due, is_gone, is_pending,
  is_finished, signals, by_own, by_signaller, by_passer, is_free, is_busy, take_list, own_lock,
  signal_lock, pass_lock, grabs, Sync, State, wait_move, signal_move, pass_move, Move, wait, signal,
  complete, spurious, move, moves, all_init,
}
use libult.WaitSync.Protocol.Invariant.{IsSync, IsPass, IsGood}
use libult.WaitSync.Protocol.Frame.{is_head-has}
use libult.WaitSync.Protocol.Progress.Steps.{
  CanMoveIn, is_own, mover, steps, is_taken, steps-CanMove, signal-CanMove, handing-CanMove,
  passing-CanMove,
}
use libult.WaitSync.Protocol.Progress.Owners.{owner-CanMove, want_list-CanMove, lock-CanMove}

pub not_gone : (p : Place) → p ≢ Place.gone → is_gone p ≡ false
not_gone Place.gone ne = absurd (ne refl)
not_gone p ne = refl

module _ {σ : State} {P : ℕ → Type 0} (good : IsGood σ)
    (active : (q : ℕ) → (σ.sync q).wait ≢ Place.start → P q) where
  -- A thread that wants the lock of its structure.
  want_lock-CanMove :
      (o : Owner) (s : ℕ) (p : Place)
      → (σ.sync s).lock ≡ o
      → (σ.sync s).wait ≡ p
      → (p ≡ Place.entering) ⊎ (p ≡ Place.woken)
      → P s
      → CanMoveIn P σ
  unfolding move wait_move
  want_lock-CanMove Owner.free s p e w (inl k) j =
      let at : (σ.sync s).wait ≡ Place.entering = w ∙ k in
      let go : wait_move Place.entering true s σ ≢ σ = λ h.
        let f =
          ap (λ (v : State). (v.sync s).wait)
            (sym (ap (λ o. own_lock o Place.testing s σ) e) ∙ h) in
        ground arith in
      (wait s true, refl, j, λ h. go (ap (λ a. wait_move a true s σ) (sym at) ∙ h))
  want_lock-CanMove Owner.free s p e w (inr k) j =
      let at : (σ.sync s).wait ≡ Place.woken = w ∙ k in
      let go : wait_move Place.woken true s σ ≢ σ = λ h.
        let f =
          ap (λ (v : State). (v.sync s).wait)
            (sym (ap (λ o. own_lock o Place.rechecking s σ) e) ∙ h) in
        ground arith in
      (wait s true, refl, j, λ h. go (ap (λ a. wait_move a true s σ) (sym at) ∙ h))
  want_lock-CanMove Owner.own s p e w k j = lock-CanMove good active Owner.own s j e refl
  want_lock-CanMove Owner.signaller s p e w k j =
      lock-CanMove good active Owner.signaller s j e refl
  want_lock-CanMove Owner.passer s p e w k j = lock-CanMove good active Owner.passer s j e refl

  -- The signaller, whoever has the lock.
  unfinished-CanMove :
      (o : Owner) (s : ℕ)
      → P s
      → (σ.sync s).lock ≡ o
      → is_pending (σ.sync s).last ≡ false
      → is_finished (σ.sync s).last ≡ false
      → CanMoveIn P σ
  unfinished-CanMove Owner.free s j e p f = signal-CanMove good active s j p f (λ h. e)
  unfinished-CanMove Owner.own s j e p f = lock-CanMove good active Owner.own s j e refl
  unfinished-CanMove Owner.signaller s j e p f = lock-CanMove good active Owner.signaller s j e refl
  unfinished-CanMove Owner.passer s j e p f = lock-CanMove good active Owner.passer s j e refl

  driving-CanMove :
      (s : ℕ)
      → P s
      → (σ.sync s).wait ≡ Place.driving
      → is_pending (σ.sync s).last ≡ false
      → CanMoveIn P σ
  unfolding move wait_move
  driving-CanMove s j e p =
      let i = good.each s in
      let go : wait_move Place.driving true s σ ≢ σ =
        λ h. let f = ap (λ (v : State). (v.sync s).wait) h in ground arith in
      (wait s true, refl, j, λ h. go (ap (λ a. wait_move a true s σ) (sym e) ∙ h))

  releasing-CanMove :
      (s : ℕ)
      → P s
      → (σ.sync s).wait ≡ Place.releasing
      → is_pending (σ.sync s).last ≡ false
      → CanMoveIn P σ
  unfolding move wait_move
  releasing-CanMove s j e p = elim (Bool-cases (is_finished (σ.sync s).last)) [
    | inr f ↦ unfinished-CanMove (σ.sync s).lock s j refl p f
    | inl f ↦
        let i = good.each s in
        let go : wait_move Place.releasing true s σ ≢ σ =
          λ h. let g = ap (λ (v : State). (v.sync s).wait) h in ground arith in
        (wait s true, refl, j, λ h. go (ap (λ a. wait_move a true s σ) (sym e) ∙ h))
  ]

  pub completed-CanMove :
      (p : Place) (s : ℕ)
      → P s
      → (σ.sync s).wait ≡ p
      → is_gone p ≡ false
      → is_pending (σ.sync s).last ≡ false
      → CanMoveIn P σ
  completed-CanMove Place.start s j e g l = steps-CanMove good active s j (ap steps e)
  completed-CanMove Place.entering s j e g l =
      want_lock-CanMove (σ.sync s).lock s Place.entering refl e (inl refl) j
  completed-CanMove Place.testing s j e g l = steps-CanMove good active s j (ap steps e)
  completed-CanMove Place.listing s j e g l =
      want_list-CanMove good active σ.list_lock s Place.listing refl e (inl refl) j
  completed-CanMove Place.inserting s j e g l = steps-CanMove good active s j (ap steps e)
  completed-CanMove Place.deciding s j e g l = steps-CanMove good active s j (ap steps e)
  completed-CanMove Place.falling s j e g l = steps-CanMove good active s j (ap steps e)
  completed-CanMove Place.sleeping s j e g l =
      let i = good.each s in unfinished-CanMove (σ.sync s).lock s j refl l (ground arith)
  completed-CanMove Place.woken s j e g l =
      want_lock-CanMove (σ.sync s).lock s Place.woken refl e (inr refl) j
  completed-CanMove Place.rechecking s j e g l = steps-CanMove good active s j (ap steps e)
  completed-CanMove Place.driving s j e g l = driving-CanMove s j e l
  completed-CanMove Place.trimming s j e g l =
      want_list-CanMove good active σ.list_lock s Place.trimming refl e (inr refl) j
  completed-CanMove Place.unlinking s j e g l = steps-CanMove good active s j (ap steps e)
  completed-CanMove Place.handing s j e g l = owner-CanMove good active Place.handing s e refl
  completed-CanMove Place.releasing s j e g l = releasing-CanMove s j e l
  completed-CanMove Place.gone s j e g l = cc
