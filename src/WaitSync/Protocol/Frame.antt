-- ===== src/WaitSync/Protocol/Frame.antt =====
-- src/wait_sync.h and src/impl/base/wait_sync.c: a step changes one structure, and the others keep what
-- holds of them.
use libult.Base.{
  ℕ, ◌≡◌, refl, sym, ap, ◌∙◌, true, false, not, ◌&&◌, ◌||◌, Option, none, some, List, [], ◌∷◌, ◌==◌,
  if_true, if_false, Bool-cases, inl, inr, ==_iff, ==_refl, update, has, ◌∈◌, without, ◌++◌, arith,
}
use libult.WaitSync.Protocol.{
  Place, Last, Pass, wakes, is_head, owner, holds, listed, holds_list, at_risk, rests, is_down,
  is_gone, is_handing, passes, grabs, by_own, is_pending, is_finished, signals, heir, first, Sync,
  State, any_destroyed,
}
use libult.WaitSync.Protocol.Invariant.{IsSync, IsPass, IsGood}

-- What a structure sees of a change of the list, its lock and the passing.
pub record IsFrame (q : ℕ) (list list' : List ℕ) (lock lock' : Option ℕ) (pass pass' : Pass)
    : Type 0 where
  pub same_list : has q list' ≡ has q list
  pub same_lock : owner q lock' ≡ owner q lock
  pub same_pass : grabs q pass' ≡ grabs q pass
  pub no_less :
      (is_head q list' && not (passes q pass') && not (is_head q list && not (passes q pass)))
      ≡ false

pub IsSync-frame :
    {x : Sync} {q : ℕ} {list list' : List ℕ} {lock lock' : Option ℕ} {pass pass' : Pass}
    → IsFrame q list list' lock lock' pass pass'
    → IsSync x q list lock pass
    → IsSync x q list' lock' pass'
IsSync-frame f i = record {
  counted = i.counted;
  flagged = i.flagged;
  owned = i.owned;
  signalled = i.signalled;
  passed = i.passed ∙ sym f.same_pass;
  on_list = f.same_list ∙ i.on_list;
  list_owned = f.same_lock ∙ i.list_owned;
  ended = i.ended;
  quiet = i.quiet;
  due = i.due;
  down = i.down;
  promoted = ground (arith, i.promoted, f.no_less);
}

-- The structure that a step changes, and the others.
pub each_put :
    (f : ℕ → Sync) (s : ℕ) (x : Sync) (list : List ℕ) (lock : Option ℕ) (pass : Pass)
    → IsSync x s list lock pass
    → ((q : ℕ) → (s == q) ≡ false → IsSync (f q) q list lock pass)
    → (q : ℕ) → IsSync (update f s x q) q list lock pass
each_put f s x list lock pass self others q = elim (Bool-cases (s == q)) [
  | inl e ↦ rw (if_true (s == q) x (f q) e, sym ((==_iff s q).0 e)) self
  | inr e ↦ rw (if_false (s == q) x (f q) e) (others q e)
]

-- A step that leaves the list, its lock and the passing alone.
pub local_put :
    {σ : State} (s : ℕ) (x : Sync)
    → IsGood σ
    → IsSync x s σ.list σ.list_lock σ.pass
    → (is_handing (σ.sync s).wait && not (is_handing x.wait)) ≡ false
    → IsGood (record σ { sync = update σ.sync s x })
local_put {σ} s x good self keeps = record {
  each = each_put σ.sync s x σ.list σ.list_lock σ.pass self λ q ne. good.each q;
  distinct = good.distinct;
  heads = good.heads;
  handed = λ q e. ground (arith, good.handed q e);
  locked = good.locked;
}

pub listed-gone : (p : Place) → listed p ≡ true → is_gone p ≡ false
listed-gone Place.gone e = cc
listed-gone p e = refl

-- What stands on the list is not destroyed.
pub listed-live : {σ : State} (q : ℕ) → IsGood σ → q ∈ σ.list → (σ.sync q).destroyed ≡ false
listed-live {σ} q good e =
    let i = good.each q in i.ended ∙ listed-gone (σ.sync q).wait (sym i.on_list ∙ e)

pub any_destroyed-live :
    (f : ℕ → Sync) (list : List ℕ)
    → ((q : ℕ) → q ∈ list → (f q).destroyed ≡ false)
    → any_destroyed f list ≡ false
any_destroyed-live f [] live = refl
any_destroyed-live f (s ∷ ss) live =
    ground (arith, live s, any_destroyed-live f ss λ q e. live q (ground arith))

-- What a signal does not change.
pub wakes-same :
    (p : Place)
    → (holds (wakes p) ≡ holds p)
      × (listed (wakes p) ≡ listed p)
      × (holds_list (wakes p) ≡ holds_list p)
      × (is_gone (wakes p) ≡ is_gone p)
      × (is_down (wakes p) ≡ is_down p)
      × (is_handing (wakes p) ≡ is_handing p)
      × ((at_risk (wakes p) && not (holds p)) ≡ false)
      × ((rests (wakes p) && not (holds p)) ≡ false)
wakes-same Place.sleeping = (refl, refl, refl, refl, refl, refl, refl, refl)
wakes-same Place.start = (refl, refl, refl, refl, refl, refl, refl, refl)
wakes-same p = ground arith

-- Structures on the list are not destroyed, so the writes to them are no fault.
pub list-live :
    {σ : State} → IsGood σ → σ.fault ≡ false → (σ.fault || any_destroyed σ.sync σ.list) ≡ false
list-live {σ} good sound =
    let live = any_destroyed-live σ.sync σ.list (λ q e. listed-live q good e) in ground arith

pub is_head-has : (h : ℕ) (xs : List ℕ) → is_head h xs ≡ true → h ∈ xs
is_head-has h [] e = cc
is_head-has h (x ∷ xs) e = ground arith

-- The lists before and after an insertion and a removal.
pub is_head-append :
    (q s : ℕ) (xs : List ℕ)
    → (s == q) ≡ false
    → (is_head q (xs ++ s ∷ []) && not (is_head q xs)) ≡ false
is_head-append q s [] ne = ground arith
is_head-append q s (x ∷ xs) ne = ground arith

pub owner_unique :
    (lock : Option ℕ) (s q : ℕ) → owner s lock ≡ true → (s == q) ≡ false → owner q lock ≡ false
owner_unique none s q e ne = refl
owner_unique (some t) s q e ne = ground arith

first-IsPass : (xs : List ℕ) → IsPass (first xs) xs
first-IsPass [] = tt
first-IsPass (x ∷ xs) = ==_refl x

pub heir-IsPass : (s : ℕ) (xs : List ℕ) → IsPass (heir s xs) (without s xs)
heir-IsPass s xs = elim (Bool-cases (is_head s xs)) [
  | inl e ↦
      rw (if_true (is_head s xs) (first (without s xs)) Pass.idle e) (first-IsPass (without s xs))
  | inr e ↦ rw (if_false (is_head s xs) (first (without s xs)) Pass.idle e) tt
]

pub heir-no_less :
    (s q : ℕ) (xs : List ℕ)
    → (s == q) ≡ false
    → (is_head q (without s xs) && not (passes q (heir s xs)) && not (is_head q xs)) ≡ false
heir-no_less s q [] ne = refl
heir-no_less s q (x ∷ []) ne = ground arith
heir-no_less s q (x ∷ y ∷ ys) ne = ground arith

pub heir-grabs : (s q : ℕ) (xs : List ℕ) → grabs q (heir s xs) ≡ false
heir-grabs s q [] = refl
heir-grabs s q (x ∷ []) = ground arith
heir-grabs s q (x ∷ y ∷ ys) = ground arith

-- A signal to `s`, by a thread that has its lock, with what changes then.
pub wake-IsSync :
    {x : Sync} {s : ℕ} {list : List ℕ} {lock : Option ℕ} {pass : Pass} (last : Last) (pass' : Pass)
    → IsSync x s list lock pass
    → by_own x.lock ≡ false
    → is_pending last ≡ is_pending x.last
    → is_finished last ≡ is_finished x.last
    → signals last ≡ signals x.last
    → grabs s pass' ≡ grabs s pass
    → IsSync (record x { wait = wakes x.wait; last = last }) s list lock pass'
wake-IsSync {x} last pass' i other p f g k =
    let w = wakes-same x.wait in
    let o = i.owned in
    record {
      counted = i.counted ∙ ap not (sym p);
      flagged = i.flagged ∙ ap not (sym f);
      owned = i.owned ∙ sym w.0;
      signalled = i.signalled ∙ sym g;
      passed = i.passed ∙ sym k;
      on_list = i.on_list ∙ sym w.1;
      list_owned = i.list_owned ∙ sym w.2;
      ended = i.ended ∙ sym w.3;
      quiet = ground (arith, i.quiet);
      due = ground arith;
      down = ground (arith, i.down);
      promoted = ground arith;
    }
