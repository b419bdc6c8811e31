-- ===== src/WaitSync/Protocol/Duties.antt =====
-- src/impl/base/wait_sync.c: the steps under the lock of the list, and those that take it, keep what
-- holds.
pub mod Passing
use mathlib.Core.Path.{subst}
use libult.Base.{
  ℕ, ◌≡◌, refl, sym, ap, ◌∙◌, Bool, true, false, ◌||◌, Option, none, some, [], ◌∷◌, ◌++◌, ◌==◌,
  update, has-append, has-without, without, IsDistinct-snoc, IsDistinct-without, arith,
}
use libult.WaitSync.Protocol.{
  Place, Owner, Pass, wakes, is_head, owner, listed, holds_list, is_handing, is_busy, passes, grabs,
  heir, Sync, State, take_list, pass_lock, pass_move, wait_move,
}
use libult.WaitSync.Protocol.Invariant.{IsSync, IsPass, IsGood}
use libult.WaitSync.Protocol.Frame.{
  IsSync-frame, each_put, wake-IsSync, wakes-same, listed-gone, is_head-has, is_head-append,
  owner_unique, heir-IsPass, heir-no_less, heir-grabs,
}

busy-idle : (p : Pass) → is_busy p ≡ false → p ≡ Pass.idle
busy-idle Pass.idle e = refl
busy-idle (Pass.passing h) e = cc
busy-idle (Pass.waking h) e = cc
busy-idle (Pass.freeing h) e = cc

module _ {σ : State} (good : IsGood σ) (s : ℕ) where
  take_list-IsGood :
      (l : Option ℕ) (p : Place)
      → σ.list_lock ≡ l
      → (l ≡ none → IsSync (record (σ.sync s) { wait = p }) s σ.list (some s) σ.pass)
      → IsGood (take_list l p s σ)
  take_list-IsGood (some t) p e self = good
  take_list-IsGood none p e self =
      let no_pass : is_busy σ.pass ≡ false = let k = good.locked in ground arith in
      record {
        each =
            each_put σ.sync s (record (σ.sync s) { wait = p }) σ.list (some s) σ.pass (self refl)
              λ q ne.
                IsSync-frame
                  (record {
                    same_list = refl;
                    same_lock = ground arith;
                    same_pass = refl;
                    no_less = ground arith;
                  })
                  (good.each q);
        distinct = good.distinct;
        heads = good.heads;
        handed = λ q o. ground arith;
        locked = ground arith;
      }

  pub listing-IsGood :
      (b : Bool) → (σ.sync s).wait ≡ Place.listing → IsGood (wait_move Place.listing b s σ)
  unfolding wait_move
  listing-IsGood b e =
      let i = good.each s in
      let k = good.locked in take_list-IsGood σ.list_lock Place.inserting refl λ z. ground arith

  pub trimming-IsGood :
      (b : Bool) → (σ.sync s).wait ≡ Place.trimming → IsGood (wait_move Place.trimming b s σ)
  unfolding wait_move
  trimming-IsGood b e =
      let i = good.each s in
      let k = good.locked in take_list-IsGood σ.list_lock Place.unlinking refl λ z. ground arith

  -- The owner of the list's lock passes nothing on before it hands its duties.
  pass_idle :
      (p : Place)
      → (σ.sync s).wait ≡ p
      → holds_list p ≡ true
      → is_handing p ≡ false
      → is_busy σ.pass ≡ false
  pass_idle p e l h = let i = good.each s in ground (arith, good.handed s)

  pub list_owner :
      (p : Place) → (σ.sync s).wait ≡ p → holds_list p ≡ true → owner s σ.list_lock ≡ true
  list_owner p e l = let i = good.each s in ground arith

  pub inserting-IsGood :
      (b : Bool) → (σ.sync s).wait ≡ Place.inserting → IsGood (wait_move Place.inserting b s σ)
  unfolding wait_move
  inserting-IsGood b e =
      let i = good.each s in
      let quiet = pass_idle Place.inserting e refl refl in
      let mine = list_owner Place.inserting e refl in
      let longer = λ (q : ℕ). has-append q σ.list (s ∷ []) in
      record {
        each =
            each_put σ.sync s (record (σ.sync s) { wait = Place.deciding }) (σ.list ++ s ∷ []) none
              σ.pass (ground (arith, longer s))
              λ q ne.
                IsSync-frame
                  (record {
                    same_list = ground (arith, longer q);
                    same_lock = sym (owner_unique σ.list_lock s q mine ne);
                    same_pass = refl;
                    no_less = ground (arith, is_head-append q s σ.list ne);
                  })
                  (good.each q);
        distinct = IsDistinct-snoc s σ.list good.distinct (i.on_list ∙ ap listed e);
        heads = rw (busy-idle σ.pass quiet) tt;
        handed = λ q o. cc;
        locked = ground arith;
      }

  pub unlinking-IsGood :
      (b : Bool) → (σ.sync s).wait ≡ Place.unlinking → IsGood (wait_move Place.unlinking b s σ)
  unfolding wait_move
  unlinking-IsGood b e =
      let i = good.each s in
      let quiet = pass_idle Place.unlinking e refl refl in
      let mine = list_owner Place.unlinking e refl in
      let fewer = λ (q : ℕ). has-without s q σ.list good.distinct in
      record {
        each =
            each_put σ.sync s (record (σ.sync s) { wait = Place.handing }) (without s σ.list)
              σ.list_lock (heir s σ.list) (ground (arith, fewer s, heir-grabs s s σ.list))
              λ q ne.
                IsSync-frame
                  (record {
                    same_list = ground (arith, fewer q);
                    same_lock = refl;
                    same_pass = ground (arith, heir-grabs s q σ.list, busy-idle σ.pass quiet);
                    no_less = ground (arith, heir-no_less s q σ.list ne, busy-idle σ.pass quiet);
                  })
                  (good.each q);
        distinct = IsDistinct-without s σ.list good.distinct;
        heads = heir-IsPass s σ.list;
        handed = λ q o. ground (arith, owner_unique σ.list_lock s q mine);
        locked = ground arith;
      }

  -- The lock of the list is given back.
  pub idle-IsGood :
      (σ.sync s).wait ≡ Place.handing → σ.pass ≡ Pass.idle → IsGood (pass_move Pass.idle s σ)
  idle-IsGood e quiet =
      let i = good.each s in
      let mine = list_owner Place.handing e refl in
      record {
        each =
            each_put σ.sync s (record (σ.sync s) { wait = Place.releasing }) σ.list none σ.pass
              (ground arith)
              λ q ne.
                IsSync-frame
                  (record {
                    same_list = refl;
                    same_lock = sym (owner_unique σ.list_lock s q mine ne);
                    same_pass = refl;
                    no_less = ground arith;
                  })
                  (good.each q);
        distinct = good.distinct;
        heads = good.heads;
        handed = λ q o. cc;
        locked = ground arith;
      }
