-- ===== src/WaitSync/Protocol/Progress/Owners.antt =====
-- src/wait_sync.h and src/impl/base/wait_sync.c: who has a lock can go on, or somebody else can.
use libult.Base.{
  ℕ, ◌≡◌, ◌≢◌, ◌⊎◌, refl, sym, ap, ◌∙◌, true, false, Option, none, some, inl, inr, ==_refl, arith,
}
use libult.WaitSync.Protocol.{
  Place, Owner, Pass, owner, holds, holds_list, by_own, is_free, take_list, State, wait_move, wait,
  move,
}
use libult.WaitSync.Protocol.Invariant.{IsGood}
use libult.WaitSync.Protocol.Progress.Steps.{
  CanMoveIn, steps, is_taken, steps-CanMove, signal-CanMove, handing-CanMove, passing-CanMove,
}

module _ {σ : State} {P : ℕ → Type 0} (good : IsGood σ)
    (active : (q : ℕ) → (σ.sync q).wait ≢ Place.start → P q) where
  -- The owner of the lock of the list never stops everybody.
  pub owner-CanMove :
      (p : Place) (v : ℕ) → (σ.sync v).wait ≡ p → holds_list p ≡ true → CanMoveIn P σ
  owner-CanMove Place.inserting v e k =
      steps-CanMove good active v (active v (λ k. cc)) (ap steps e)
  owner-CanMove Place.unlinking v e k =
      steps-CanMove good active v (active v (λ k. cc)) (ap steps e)
  owner-CanMove Place.handing v e k = handing_any σ.pass refl
    where
      handing_any : (p : Pass) → σ.pass ≡ p → CanMoveIn P σ
      handing_any Pass.idle q = handing-CanMove good active Pass.idle v e q (λ h f. cc)
      handing_any (Pass.passing h) q = passing-CanMove good active (σ.sync h).lock v h e q refl
      handing_any (Pass.waking h) q = handing-CanMove good active (Pass.waking h) v e q (λ w f. cc)
      handing_any (Pass.freeing h) q =
          handing-CanMove good active (Pass.freeing h) v e q (λ w f. cc)
  owner-CanMove p v e k = cc

  list-CanMove : (l : Option ℕ) → σ.list_lock ≡ l → is_free l ≡ false → CanMoveIn P σ
  list-CanMove none e f = cc
  list-CanMove (some v) e f =
      let i = good.each v in
      owner-CanMove (σ.sync v).wait v refl (sym i.list_owned ∙ ap (owner v) e ∙ ==_refl v)

  -- Nor does a thread that wants the lock of the list.
  pub want_list-CanMove :
      (l : Option ℕ) (s : ℕ) (p : Place)
      → σ.list_lock ≡ l
      → (σ.sync s).wait ≡ p
      → (p ≡ Place.listing) ⊎ (p ≡ Place.trimming)
      → P s
      → CanMoveIn P σ
  unfolding move wait_move
  want_list-CanMove (some v) s p e w k i = list-CanMove (some v) e refl
  want_list-CanMove none s p e w (inl k) i =
      let at : (σ.sync s).wait ≡ Place.listing = w ∙ k in
      let go : wait_move Place.listing true s σ ≢ σ = λ h.
        let f =
          ap (λ (v : State). (v.sync s).wait)
            (sym (ap (λ o. take_list o Place.inserting s σ) e) ∙ h) in
        ground arith in
      (wait s true, refl, i, λ h. go (ap (λ a. wait_move a true s σ) (sym at) ∙ h))
  want_list-CanMove none s p e w (inr k) i =
      let at : (σ.sync s).wait ≡ Place.trimming = w ∙ k in
      let go : wait_move Place.trimming true s σ ≢ σ = λ h.
        let f =
          ap (λ (v : State). (v.sync s).wait)
            (sym (ap (λ o. take_list o Place.unlinking s σ) e) ∙ h) in
        ground arith in
      (wait s true, refl, i, λ h. go (ap (λ a. wait_move a true s σ) (sym at) ∙ h))

  -- Nor does the owner of a structure's lock.
  own-CanMove : (p : Place) (s : ℕ) → P s → (σ.sync s).wait ≡ p → holds p ≡ true → CanMoveIn P σ
  own-CanMove Place.listing s i e k =
      want_list-CanMove σ.list_lock s Place.listing refl e (inl refl) i
  own-CanMove Place.testing s i e k = steps-CanMove good active s i (ap steps e)
  own-CanMove Place.inserting s i e k = steps-CanMove good active s i (ap steps e)
  own-CanMove Place.deciding s i e k = steps-CanMove good active s i (ap steps e)
  own-CanMove Place.falling s i e k = steps-CanMove good active s i (ap steps e)
  own-CanMove Place.rechecking s i e k = steps-CanMove good active s i (ap steps e)
  own-CanMove p s i e k = cc

  pub lock-CanMove :
      (o : Owner) (s : ℕ) → P s → (σ.sync s).lock ≡ o → is_taken o ≡ true → CanMoveIn P σ
  lock-CanMove Owner.free s j e k = cc
  lock-CanMove Owner.own s j e k =
      let i = good.each s in own-CanMove (σ.sync s).wait s j refl (sym i.owned ∙ ap by_own e)
  lock-CanMove Owner.signaller s j e k =
      let i = good.each s in
      signal-CanMove good active s j (ground arith) (ground arith) (λ f. ground arith)
  lock-CanMove Owner.passer s j e k =
      let i = good.each s in let b = good.locked in list-CanMove σ.list_lock refl (ground arith)
