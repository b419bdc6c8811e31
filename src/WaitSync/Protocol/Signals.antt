-- ===== src/WaitSync/Protocol/Signals.antt =====
-- src/wait_sync.h: the completions, the steps of WAIT_SYNC_SIGNAL, and wake-ups without a signal keep
-- what holds.
use libult.Base.{
  ℕ, ◌≡◌, refl, false, ◌==◌, ◌&&◌, ltb, leb, if_true, if_false, Bool-cases, inl, inr, arith,
}
use libult.WaitSync.Protocol.{
  Place, Last, Owner, wakes, is_handing, is_finished, Sync, State, put, goes, touch, signal_lock,
  signal_move, report, report_failure,
}
use libult.WaitSync.Protocol.Invariant.{IsSync, IsGood}
use libult.WaitSync.Protocol.Frame.{local_put, wake-IsSync, wakes-same}

module _ {σ : State} (good : IsGood σ) (s : ℕ) where
  -- While completions or the signaller are at work, the structure is there.
  pub unfinished-live : is_finished (σ.sync s).last ≡ false → (σ.sync s).destroyed ≡ false
  unfinished-live e = let i = good.each s in ground arith

  -- A step of another thread on the structure.
  put-IsGood :
      (x : Sync)
      → is_finished (σ.sync s).last ≡ false
      → x.destroyed ≡ (σ.sync s).destroyed
      → IsSync x s σ.list σ.list_lock σ.pass
      → is_handing x.wait ≡ is_handing (σ.sync s).wait
      → IsGood (touch s (put s x σ))
  put-IsGood x e same self h =
      let g = local_put s x good self (ground arith) in
      record {
        each = g.each;
        distinct = g.distinct;
        heads = g.heads;
        handed = g.handed;
        locked = g.locked;
      }

  touch-IsGood : IsGood (touch s σ)
  touch-IsGood = record {
    each = good.each;
    distinct = good.distinct;
    heads = good.heads;
    handed = good.handed;
    locked = good.locked;
  }

  signal_lock-IsGood :
      (o : Owner)
      → (σ.sync s).lock ≡ o
      → (σ.sync s).last ≡ Last.locking
      → IsGood (signal_lock o s σ)
  signal_lock-IsGood Owner.own l e = good
  signal_lock-IsGood Owner.signaller l e = good
  signal_lock-IsGood Owner.passer l e = good
  signal_lock-IsGood Owner.free l e =
      let i = good.each s in put-IsGood _ (ground arith) refl (ground arith) refl

  pub signal_move-IsGood : (l : Last) → (σ.sync s).last ≡ l → IsGood (signal_move l s σ)
  unfolding signal_move
  signal_move-IsGood Last.pending e = good
  signal_move-IsGood Last.locking e = signal_lock-IsGood (σ.sync s).lock refl e
  signal_move-IsGood Last.signalling e =
      let i = good.each s in
      put-IsGood _ (ground arith) refl
        (wake-IsSync Last.unlocking σ.pass i (ground arith) (ground arith) (ground arith)
          (ground arith) refl)
        (wakes-same (σ.sync s).wait).5
  signal_move-IsGood Last.unlocking e =
      let i = good.each s in put-IsGood _ (ground arith) refl (ground arith) refl
  signal_move-IsGood Last.clearing e =
      let i = good.each s in put-IsGood _ (ground arith) refl (ground arith) refl
  signal_move-IsGood Last.finished e = good

  pub report-IsGood : (u : ℕ) → IsGood (report s u σ)
  unfolding report
  report-IsGood u = elim (Bool-cases (ltb 0 u && leb u (σ.sync s).count)) [
    | inr e ↦ rw (if_false (ltb 0 u && leb u (σ.sync s).count) _ (touch s σ) e) touch-IsGood
    | inl e ↦
        rw (if_true {A = State} (ltb 0 u && leb u (σ.sync s).count) _ (touch s σ) e)
          (let i = good.each s in put-IsGood _ (ground arith) refl (ground arith) refl)
  ]

  pub report_failure-IsGood : (status : ℕ) → IsGood (report_failure s status σ)
  unfolding report_failure
  report_failure-IsGood status = elim (Bool-cases ((σ.sync s).count == 0)) [
    | inl e ↦ rw (if_true {A = State} ((σ.sync s).count == 0) (touch s σ) _ e) touch-IsGood
    | inr e ↦
        rw (if_false {A = State} ((σ.sync s).count == 0) (touch s σ) _ e)
          (let i = good.each s in put-IsGood _ (ground arith) refl (ground arith) refl)
  ]

  pub spurious-IsGood : (p : Place) → (σ.sync s).wait ≡ p → IsGood (goes (wakes p) s σ)
  spurious-IsGood Place.sleeping e =
      let i = good.each s in local_put s _ good (ground arith) (ground arith)
  spurious-IsGood Place.start e =
      let i = good.each s in local_put s _ good (ground arith) (ground arith)
  spurious-IsGood p e = let i = good.each s in local_put s _ good (ground arith) (ground arith)
