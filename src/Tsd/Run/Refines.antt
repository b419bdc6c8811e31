-- ===== src/Tsd/Run/Refines.antt =====
-- src/impl/base/tsd.c: the calls do what is said of them on the abstract values.
use libult.Base.{ℕ, ◌≡◌, refl, ap, ◌∙◌, Ptr, null, Bool, List, [], ◌∷◌, ◌∉◌, arith, Codes, IsCodes}
use libult.Tsd.{
  ListOps, IsList, SlotOps, IsSlots, Tracked, tracked_key_constructor, tracked_key_set_destructor,
  tracked_key_get, tracked_key_set, thread_exit,
}
use libult.Tsd.Inv.{IsTracked}
use libult.Tsd.Calls.{tracked_key_set-IsTracked}
use libult.Tsd.Exit.{thread_exit-IsExited}
use libult.Tsd.Run.{
  Step, set, exit, run, IsPlayed, Values, value_or_null, values_step, values_run, no_values,
  destroyed_in,
}
use libult.Tsd.Run.Items.{item_value, set_value, set_rest, exit_value, exit_rest}

module _ {L S : Type 0} (lists : ListOps L) (ops : SlotOps S) where
  -- A key that is new, with a destructor or without.
  abbrev pub new_key : Codes → S → (Ptr → ℕ) → Bool → Tracked L S
  new_key codes slots data_of d =
      tracked_key_set_destructor lists ops codes d
        (tracked_key_constructor lists ops codes slots data_of)

  pub record Represents (destructor : Bool) (key : Tracked L S) (a : Values) : Type 0 where
    pub tracked : IsTracked lists ops key
    pub same : (q : ℕ) → item_value lists ops key q ≡ a.value q
    pub reported : destroyed_in key.trace ≡ a.destroyed
    pub destructor_set : key.user_destructor ≡ destructor

module _ {L S : Type 0} {lists : ListOps L} {ops : SlotOps S} {codes : Codes}
    (is_list : IsList lists) (is_slots : IsSlots codes ops) (is_codes : IsCodes codes) where
  set-Represents :
      (fresh : Ptr) (t p : ℕ) (d : Bool) (key : Tracked L S) (a : Values)
      → fresh ∉ lists.items key.tsd_list
      → Represents lists ops d key a
      → let r = tracked_key_set lists ops codes fresh t p key in
        Represents lists ops d r.1 (values_step codes d (set fresh t p) r.0 a)
  set-Represents fresh t p d key a out rep =
      let rest = set_rest is_list is_slots is_codes fresh t p key in
      record {
        tracked = tracked_key_set-IsTracked is_list is_slots is_codes fresh t p key rep.tracked out;
        same = λ q.
            set_value is_list is_slots is_codes fresh t p key q rep.tracked out
            ∙ rw (rep.same q, rep.same t) refl;
        reported = rest.0 ∙ rep.reported;
        destructor_set = rest.1 ∙ rep.destructor_set;
      }

  exit-Represents :
      (t : ℕ) (d : Bool) (key : Tracked L S) (a : Values)
      → (ops.tsd_set key.slots t null).0 ≡ codes.success
      → Represents lists ops d key a
      → Represents lists ops d
          (thread_exit lists ops codes t key)
          (values_step codes d (exit t) codes.success a)
  exit-Represents t d key a done rep =
      let rest = exit_rest is_list is_slots is_codes t key in
      record {
        tracked = (thread_exit-IsExited is_list is_slots t key rep.tracked done).tracked;
        same = λ q. exit_value is_list is_slots is_codes t key q done ∙ rw (rep.same q) refl;
        reported = rest.0 ∙ rw (rep.destructor_set, rep.same t, rep.reported) refl;
        destructor_set = rest.1 ∙ rep.destructor_set;
      }

  run-Represents :
      (ss : List Step) (d : Bool) (key : Tracked L S) (a : Values)
      → IsPlayed lists ops codes ss key
      → Represents lists ops d key a
      → let r = run lists ops codes ss key in
        Represents lists ops d r.1 (values_run codes d ss r.0 a)
  unfolding run IsPlayed values_run
  run-Represents [] d key a played rep = rep
  run-Represents (set fresh t p ∷ ss) d key a (out, played) rep =
      run-Represents ss d _ _ played (set-Represents fresh t p d key a out rep)
  run-Represents (exit t ∷ ss) d key a (done, played) rep =
      run-Represents ss d _ _ played (exit-Represents t d key a done rep)

  item_value-get :
      (key : Tracked L S) (q : ℕ)
      → tracked_key_get lists ops codes q key ≡ value_or_null (item_value lists ops key q)
  unfolding tracked_key_get
  item_value-get key q = ground arith

  new_key-Represents :
      (slots : S) (data_of : Ptr → ℕ) (d : Bool)
      → ((t : ℕ) → ops.tsd_get slots t ≡ null)
      → Represents lists ops d (new_key lists ops codes slots data_of d) no_values
  unfolding tracked_key_constructor tracked_key_set_destructor
  new_key-Represents slots data_of d empty = record {
    tracked = record {
      listed = λ t h. ground (arith, empty t);
      own = λ t u h f. ground (arith, empty t);
      distinct = rw is_list.construct-items tt;
      not_null = rw is_list.construct-items (ground arith);
    };
    same = λ q. ground (arith, empty q);
    reported = refl;
    destructor_set = refl;
  }

  -- A new key does for any number of threads what a value for each of them does, whatever sequence of
  -- calls of `tsd_tracked_key_set` and of ends of threads comes, out of memory and failures of
  -- `tsd_set` included: each thread gets the value that it set last since its start, also where
  -- `tsd_set` failed but it had a value before; and the user's destructor, if one is set, has had
  -- exactly the values of the threads that ended, in their order. `OBJ_NEW` gives no memory that
  -- is in use, and the thread library clears the value of a thread that ends.
  pub run-refines :
      (slots : S) (data_of : Ptr → ℕ) (d : Bool) (ss : List Step) (q : ℕ)
      → ((t : ℕ) → ops.tsd_get slots t ≡ null)
      → IsPlayed lists ops codes ss (new_key lists ops codes slots data_of d)
      → let r = run lists ops codes ss (new_key lists ops codes slots data_of d) in
        let a = values_run codes d ss r.0 no_values in
        (tracked_key_get lists ops codes q r.1 ≡ value_or_null (a.value q))
        × (destroyed_in r.1.trace ≡ a.destroyed)
  run-refines slots data_of d ss q empty played =
      let rep =
        run-Represents ss d (new_key lists ops codes slots data_of d) no_values played
          (new_key-Represents slots data_of d empty) in
      (item_value-get _ q ∙ ap value_or_null (rep.same q), rep.reported)
