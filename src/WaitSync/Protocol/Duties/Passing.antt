-- ===== src/WaitSync/Protocol/Duties/Passing.antt =====
-- src/impl/base/wait_sync.c: WAIT_SYNC_PASS_OWNERSHIP, which signals the new head under its lock, keeps
-- what holds.
use mathlib.Core.Path.{subst}
use libult.Base.{ℕ, ◌≡◌, refl, Bool, true, false, ◌||◌, ◌==◌, update, arith}
use libult.WaitSync.Protocol.{
  Place, Owner, Pass, wakes, is_head, is_handing, passes, grabs, Sync, State, pass_lock, pass_move,
  wait_move,
}
use libult.WaitSync.Protocol.Invariant.{IsSync, IsPass, IsGood}
use libult.WaitSync.Protocol.Frame.{IsSync-frame, each_put, wake-IsSync, wakes-same, owner_unique}
use libult.WaitSync.Protocol.Duties.{list_owner, idle-IsGood}

module _ {σ : State} (good : IsGood σ) (s : ℕ) where
  -- A step of the passing on the structure `h` that gets the duties.
  pass-IsGood :
      (h : ℕ) (x : Sync) (pass : Pass)
      → (σ.sync s).wait ≡ Place.handing
      → is_head h σ.list ≡ true
      → IsSync x h σ.list σ.list_lock pass
      → is_handing x.wait ≡ is_handing (σ.sync h).wait
      → ((q : ℕ) → (h == q) ≡ false → grabs q pass ≡ grabs q σ.pass)
      → ((q : ℕ) → (h == q) ≡ false → passes q σ.pass ≡ false)
      → IsPass pass σ.list
      → IsGood (record σ {
        sync = update σ.sync h x;
        pass = pass;
        fault = σ.fault || (update σ.sync h x h).destroyed;
      })
  pass-IsGood h x pass e head self same grab pass_none heads =
      let mine = list_owner good s Place.handing e refl in
      record {
        each = each_put σ.sync h x σ.list σ.list_lock pass self λ q ne.
            IsSync-frame
              (record {
                same_list = refl;
                same_lock = refl;
                same_pass = grab q ne;
                no_less = ground (arith, pass_none q ne);
              })
              (good.each q);
        distinct = good.distinct;
        heads = heads;
        handed = λ q o. ground (arith, owner_unique σ.list_lock s q mine);
        locked = ground arith;
      }

  pass_lock-IsGood :
      (o : Owner) (h : ℕ)
      → (σ.sync h).lock ≡ o
      → (σ.sync s).wait ≡ Place.handing
      → σ.pass ≡ Pass.passing h
      → IsGood (pass_lock o h σ)
  pass_lock-IsGood Owner.own h l e p = good
  pass_lock-IsGood Owner.signaller h l e p = good
  pass_lock-IsGood Owner.passer h l e p = good
  pass_lock-IsGood Owner.free h l e p =
      let i = good.each h in
      let head : is_head h σ.list ≡ true = subst (λ v. IsPass v σ.list) p good.heads in
      pass-IsGood h (record (σ.sync h) { lock = Owner.passer }) (Pass.waking h) e head
        (ground arith) refl (λ q ne. ground arith) (λ q ne. ground arith) head

  handing_pass :
      (p : Pass) → σ.pass ≡ p → (σ.sync s).wait ≡ Place.handing → IsGood (pass_move p s σ)
  handing_pass Pass.idle p e = idle-IsGood good s e p
  handing_pass (Pass.passing h) p e = pass_lock-IsGood (σ.sync h).lock h refl e p
  handing_pass (Pass.waking h) p e =
      let i = good.each h in
      let head : is_head h σ.list ≡ true = subst (λ v. IsPass v σ.list) p good.heads in
      pass-IsGood h (record (σ.sync h) { wait = wakes (σ.sync h).wait }) (Pass.freeing h) e head
        (wake-IsSync (σ.sync h).last (Pass.freeing h) i (ground arith) refl refl refl
          (ground arith))
        (wakes-same (σ.sync h).wait).5 (λ q ne. ground arith) (λ q ne. ground arith) head
  handing_pass (Pass.freeing h) p e =
      let i = good.each h in
      let head : is_head h σ.list ≡ true = subst (λ v. IsPass v σ.list) p good.heads in
      pass-IsGood h (record (σ.sync h) { lock = Owner.free }) Pass.idle e head (ground arith) refl
        (λ q ne. ground arith) (λ q ne. ground arith) tt

  pub handing-IsGood :
      (b : Bool) → (σ.sync s).wait ≡ Place.handing → IsGood (wait_move Place.handing b s σ)
  unfolding wait_move
  handing-IsGood b e = handing_pass σ.pass refl e
