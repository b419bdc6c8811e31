-- ===== src/WaitSync/Protocol/Measure/Decrease.antt =====
-- src/wait_sync.h and src/impl/base/wait_sync.c: each step that has an effect leaves less to do.
use mathlib.Core.Path.{subst}
use libult.Base.{
  ℕ, ◌≡◌, ◌≢◌, refl, ◌+◌, ◌<◌, ◌≤◌, Bool, true, not, ◌&&◌, Option, none, some, List, [], ◌∷◌, ◌==◌,
  ltb, leb, Bool-cases, inl, inr, without, ◌∈◌, arith,
}
use libult.WaitSync.Protocol.{
  Place, Last, Owner, Pass, wakes, is_head, first, heir, goes, own_lock, take_list, pass_lock,
  pass_move, wait_move, signal_lock, signal_move, report, report_failure, State,
}
use libult.WaitSync.Protocol.Invariant.{IsPass, IsGood}
use libult.WaitSync.Protocol.Frame.{is_head-has}
use libult.WaitSync.Protocol.Measure.{
  rank, last_rank, pass_rank, IsStep, change-IsStep, touch-IsStep,
}

pass_rank-heir : (s : ℕ) (list : List ℕ) → pass_rank (heir s list) ≤ 7
unfolding pass_rank
pass_rank-heir s list = elim (Bool-cases (is_head s list)) [
  | inl e ↦ rw e (pass_rank-first (without s list))
  | inr e ↦ rw e (omega arith)
]
  where
    pass_rank-first : (l : List ℕ) → pass_rank (first l) ≤ 7
    pass_rank-first [] = omega arith
    pass_rank-first (h ∷ hs) = omega arith

rank-wakes : (p : Place) → rank (wakes p) ≤ rank p + 4
unfolding rank
rank-wakes p = ground arith

module _ (n : ℕ) (σ : State) (s : ℕ) (below : s < n) where
  goes-IsStep : (p p' : Place) → (σ.sync s).wait ≡ p → rank p' < rank p → IsStep n σ (goes p' s σ)
  goes-IsStep p p' e l = change-IsStep n σ s _ _ below refl (ground arith) (ground arith)

  own_lock-IsStep :
      (o : Owner) (p p' : Place)
      → (σ.sync s).wait ≡ p
      → rank p' < rank p
      → IsStep n σ (own_lock o p' s σ)
  own_lock-IsStep Owner.free p p' e l =
      change-IsStep n σ s _ _ below refl (ground arith) (ground arith)
  own_lock-IsStep o p p' e l = inl refl

  take_list-IsStep :
      (o : Option ℕ) (p p' : Place)
      → (σ.sync s).wait ≡ p
      → rank p' < rank p
      → IsStep n σ (take_list o p' s σ)
  take_list-IsStep none p p' e l = change-IsStep n σ s _ _ below refl (ground arith) (ground arith)
  take_list-IsStep (some t) p p' e l = inl refl

  local-IsStep :
      (p : Place) (b : Bool)
      → (σ.sync s).wait ≡ p
      → (p ≢ Place.handing)
      → IsStep n σ (wait_move p b s σ)
  unfolding wait_move rank
  local-IsStep Place.start b e ne = change-IsStep n σ s _ _ below refl (ground arith) (ground arith)
  local-IsStep Place.entering b e ne =
      own_lock-IsStep (σ.sync s).lock Place.entering Place.testing e (omega arith)
  local-IsStep Place.testing b e ne = elim (Bool-cases ((σ.sync s).count == 0)) [
    | inl z ↦ rw z (change-IsStep n σ s _ _ below refl (ground arith) (ground arith))
    | inr z ↦ rw z (change-IsStep n σ s _ _ below refl (ground arith) (ground arith))
  ]
  local-IsStep Place.listing b e ne =
      take_list-IsStep σ.list_lock Place.listing Place.inserting e (omega arith)
  local-IsStep Place.inserting b e ne =
      change-IsStep n σ s _ _ below refl (ground arith) (ground arith)
  local-IsStep Place.deciding b e ne = elim (Bool-cases (not (is_head s σ.list) && b)) [
    | inl z ↦ rw z (change-IsStep n σ s _ _ below refl (ground arith) (ground arith))
    | inr z ↦ rw z (change-IsStep n σ s _ _ below refl (ground arith) (ground arith))
  ]
  local-IsStep Place.falling b e ne =
      change-IsStep n σ s _ _ below refl (ground arith) (ground arith)
  local-IsStep Place.sleeping b e ne = inl refl
  local-IsStep Place.woken b e ne =
      own_lock-IsStep (σ.sync s).lock Place.woken Place.rechecking e (omega arith)
  local-IsStep Place.rechecking b e ne = elim (Bool-cases ((σ.sync s).count == 0)) [
    | inl z ↦ rw z (change-IsStep n σ s _ _ below refl (ground arith) (ground arith))
    | inr z ↦ rw z (change-IsStep n σ s _ _ below refl (ground arith) (ground arith))
  ]
  local-IsStep Place.driving b e ne = elim (Bool-cases ((σ.sync s).count == 0)) [
    | inl z ↦ rw z (change-IsStep n σ s _ _ below refl (ground arith) (ground arith))
    | inr z ↦ rw z (inl refl)
  ]
  local-IsStep Place.trimming b e ne =
      take_list-IsStep σ.list_lock Place.trimming Place.unlinking e (omega arith)
  local-IsStep Place.unlinking b e ne =
      let h = pass_rank-heir s σ.list in
      change-IsStep n σ s _ _ below refl (ground arith) (ground arith)
  local-IsStep Place.handing b e ne = absurd (ne refl)
  local-IsStep Place.releasing b e ne = elim (Bool-cases ((σ.sync s).signaling)) [
    | inl z ↦ rw z (inl refl)
    | inr z ↦ rw z (change-IsStep n σ s _ _ below refl (ground arith) (ground arith))
  ]
  local-IsStep Place.gone b e ne = inl refl

module _ (n : ℕ) (σ : State) (good : IsGood σ) (inside : (q : ℕ) → q ∈ σ.list → q < n) where
  -- Duties go to a thread below `n`.
  heads_below : (h : ℕ) → is_head h σ.list ≡ true → h < n
  heads_below h e = inside h (is_head-has h σ.list e)

  pass_lock-IsStep :
      (o : Owner) (h : ℕ) → h < n → σ.pass ≡ Pass.passing h → IsStep n σ (pass_lock o h σ)
  unfolding pass_rank
  pass_lock-IsStep Owner.free h b e =
      change-IsStep n σ h _ _ b refl (ground arith) (rw e (ground arith))
  pass_lock-IsStep o h b e = inl refl

  pass_move-IsStep :
      (p : Pass) (s : ℕ)
      → s < n
      → (σ.sync s).wait ≡ Place.handing
      → σ.pass ≡ p
      → IsStep n σ (pass_move p s σ)
  unfolding rank pass_rank
  pass_move-IsStep Pass.idle s b e k = change-IsStep n σ s _ _ b refl (ground arith) (ground arith)
  pass_move-IsStep (Pass.passing h) s b e k =
      let head : is_head h σ.list ≡ true = subst (λ v. IsPass v σ.list) k good.heads in
      pass_lock-IsStep (σ.sync h).lock h (heads_below h head) k
  pass_move-IsStep (Pass.waking h) s b e k =
      let head : is_head h σ.list ≡ true = subst (λ v. IsPass v σ.list) k good.heads in
      let w = rank-wakes (σ.sync h).wait in
      change-IsStep n σ h _ _ (heads_below h head) refl (ground arith) (rw k (ground arith))
  pass_move-IsStep (Pass.freeing h) s b e k =
      let head : is_head h σ.list ≡ true = subst (λ v. IsPass v σ.list) k good.heads in
      change-IsStep n σ h _ _ (heads_below h head) refl (ground arith) (rw k (ground arith))

  handing-IsStep :
      (b : Bool) (s : ℕ)
      → s < n
      → (σ.sync s).wait ≡ Place.handing
      → IsStep n σ (wait_move Place.handing b s σ)
  unfolding wait_move
  handing-IsStep b s l e = pass_move-IsStep σ.pass s l e refl

  signal_lock-IsStep :
      (o : Owner) (s : ℕ) → s < n → (σ.sync s).last ≡ Last.locking → IsStep n σ (signal_lock o s σ)
  unfolding last_rank
  signal_lock-IsStep Owner.free s b e =
      change-IsStep n σ s _ _ b refl (ground arith) (rw e (ground arith))
  signal_lock-IsStep o s b e = inl refl

  pub signal_move-IsStep :
      (l : Last) (s : ℕ) → s < n → (σ.sync s).last ≡ l → IsStep n σ (signal_move l s σ)
  unfolding signal_move last_rank
  signal_move-IsStep Last.pending s b e = inl refl
  signal_move-IsStep Last.locking s b e = signal_lock-IsStep (σ.sync s).lock s b e
  signal_move-IsStep Last.signalling s b e =
      let w = rank-wakes (σ.sync s).wait in
      change-IsStep n σ s _ _ b refl (ground arith) (rw e (ground arith))
  signal_move-IsStep Last.unlocking s b e =
      change-IsStep n σ s _ _ b refl (ground arith) (rw e (ground arith))
  signal_move-IsStep Last.clearing s b e =
      change-IsStep n σ s _ _ b refl (ground arith) (rw e (ground arith))
  signal_move-IsStep Last.finished s b e = inl refl

  pub report_failure-IsStep : (s status : ℕ) → s < n → IsStep n σ (report_failure s status σ)
  unfolding report_failure last_rank
  report_failure-IsStep s status b = elim (Bool-cases ((σ.sync s).count == 0)) [
    | inl z ↦ rw z (touch-IsStep n σ s)
    | inr z ↦
        let i = good.each s in rw z (change-IsStep n σ s _ _ b refl (ground arith) (ground arith))
  ]

  pub report-IsStep : (s u : ℕ) → s < n → IsStep n σ (report s u σ)
  unfolding report last_rank
  report-IsStep s u b = elim (Bool-cases (ltb 0 u && leb u (σ.sync s).count)) [
    | inl z ↦
        let i = good.each s in rw z (change-IsStep n σ s _ _ b refl (ground arith) (ground arith))
    | inr z ↦ rw z (touch-IsStep n σ s)
  ]

  pub wait_move-IsStep :
      (p : Place) (b : Bool) (s : ℕ) → s < n → (σ.sync s).wait ≡ p → IsStep n σ (wait_move p b s σ)
  wait_move-IsStep Place.handing b s l e = handing-IsStep b s l e
  wait_move-IsStep p b s l e = local-IsStep n σ s l p b e (λ k. cc)
