-- ===== src/WaitSync/Protocol/Waiter.antt =====
-- src/impl/base/wait_sync.c and src/wait_sync.h: the steps of the thread that waits keep what holds.
use libult.Base.{ℕ, ◌≡◌, refl, Bool, true, false, not, ◌&&◌, ◌==◌, if◌then◌else◌, arith}
use libult.WaitSync.Protocol.{Place, Owner, is_head, is_handing, State, own_lock, wait_move}
use libult.WaitSync.Protocol.Invariant.{IsSync, IsGood}
use libult.WaitSync.Protocol.Frame.{local_put}

abbrev pub uses_list : Place → Bool
uses_list Place.listing = true
uses_list Place.inserting = true
uses_list Place.trimming = true
uses_list Place.unlinking = true
uses_list Place.handing = true
uses_list p = false

-- Both ways of a test.
either-IsGood :
    (b : Bool) (σ τ : State)
    → (b ≡ true → IsGood σ)
    → (b ≡ false → IsGood τ)
    → IsGood (if b then σ else τ)
either-IsGood true σ τ l r = l refl
either-IsGood false σ τ l r = r refl

module _ {σ : State} (good : IsGood σ) (s : ℕ) where
  own_lock-IsGood :
      (o : Owner) (p : Place)
      → (o ≡ Owner.free
          → IsSync (record (σ.sync s) { lock = Owner.own; wait = p }) s σ.list σ.list_lock σ.pass)
      → is_handing (σ.sync s).wait ≡ false
      → IsGood (own_lock o p s σ)
  own_lock-IsGood Owner.free p self h = local_put s _ good (self refl) (ground arith)
  own_lock-IsGood Owner.own p self h = good
  own_lock-IsGood Owner.signaller p self h = good
  own_lock-IsGood Owner.passer p self h = good

  -- The steps that leave the list, its lock and the passing alone.
  pub local_move-IsGood :
      (p : Place) (b : Bool)
      → (σ.sync s).wait ≡ p
      → uses_list p ≡ false
      → IsGood (wait_move p b s σ)
  unfolding wait_move
  local_move-IsGood Place.start b e l =
      let i = good.each s in local_put s _ good (ground arith) (ground arith)
  local_move-IsGood Place.entering b e l =
      let i = good.each s in
      own_lock-IsGood (σ.sync s).lock Place.testing (λ z. ground arith) (ground arith)
  local_move-IsGood Place.testing b e l =
      let i = good.each s in
      either-IsGood ((σ.sync s).count == 0) _ _
        (λ z. local_put s _ good (ground arith) (ground arith))
        (λ z. local_put s _ good (ground arith) (ground arith))
  local_move-IsGood Place.deciding b e l =
      let i = good.each s in
      either-IsGood (not (is_head s σ.list) && b) _ _
        (λ z. local_put s _ good (ground arith) (ground arith))
        (λ z. local_put s _ good (ground arith) (ground arith))
  local_move-IsGood Place.falling b e l =
      let i = good.each s in local_put s _ good (ground arith) (ground arith)
  local_move-IsGood Place.sleeping b e l = good
  local_move-IsGood Place.woken b e l =
      let i = good.each s in
      own_lock-IsGood (σ.sync s).lock Place.rechecking (λ z. ground arith) (ground arith)
  local_move-IsGood Place.rechecking b e l =
      let i = good.each s in
      either-IsGood ((σ.sync s).count == 0) _ _
        (λ z. local_put s _ good (ground arith) (ground arith))
        (λ z. local_put s _ good (ground arith) (ground arith))
  local_move-IsGood Place.driving b e l =
      let i = good.each s in
      either-IsGood ((σ.sync s).count == 0) _ _
        (λ z. local_put s _ good (ground arith) (ground arith)) (λ z. good)
  local_move-IsGood Place.releasing b e l =
      let i = good.each s in
      either-IsGood (σ.sync s).signaling _ _ (λ z. good)
        (λ z. local_put s _ good (ground arith) (ground arith))
  local_move-IsGood Place.gone b e l = good
  local_move-IsGood Place.listing b e l = cc
  local_move-IsGood Place.inserting b e l = cc
  local_move-IsGood Place.trimming b e l = cc
  local_move-IsGood Place.unlinking b e l = cc
  local_move-IsGood Place.handing b e l = cc
