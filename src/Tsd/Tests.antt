-- ===== src/Tsd/Tests.antt =====
-- src/impl/base/tsd.c: one key with two threads, on lists of addresses and a function for the slots.
use libult.Base.{
  without, ℕ, ◌≡◌, refl, Ptr, true, List, [], ◌∷◌, ◌++◌, arith, ◌==◌, if◌then◌else◌, update,
  sample_codes, sample_codes-IsCodes,
}
use libult.Tsd.{
  ListOps, IsList, SlotOps, IsSlots, Tracked, mutex_lock, mutex_unlock, tracked_key_get,
  tracked_key_constructor, tracked_key_set_destructor, tracked_key_set, thread_exit,
}
use libult.Tsd.Slots.{Specific, argobots, IsSpecific, slot_ops, slot_ops-IsSlots}
use libult.Tsd.Run.{
  Step, set, exit, run, IsPlayed, value_or_null, values_run, no_values, destroyed_in,
}
use libult.Tsd.Run.Refines.{new_key, run-refines}
use libult.Tsd.Inv.{IsTracked}

abbrev lists : ListOps (List Ptr)
lists = record {
  construct = [];
  append = λ l x. l ++ x ∷ [];
  remove_item = λ l x. without x l;
  items = λ l. l;
}

lists-IsList : IsList lists
lists-IsList = record {
  construct-items = refl;
  append-items = λ l x. refl;
  remove_item-items = λ l x. refl;
}

abbrev slots : SlotOps (ℕ → Ptr)
slots = record { tsd_get = λ s t. s t; tsd_set = λ s t p. (0, update s t p) }

slots-IsSlots : IsSlots sample_codes slots
slots-IsSlots = record {
  get-set = λ s t q p done. ground arith;
  get-set_failed = λ s t q p failed. absurd (failed refl);
}

abbrev fresh_key : Tracked (List Ptr) (ℕ → Ptr)
fresh_key = record {
  slots = λ t. 0;
  tsd_list = [];
  user_destructor = true;
  data_of = λ x. 0;
  trace = [];
}

-- Thread 1 has the item 10 with the value 5.
abbrev used_key : Tracked (List Ptr) (ℕ → Ptr)
used_key = record {
  slots = update (λ t. 0) 1 10;
  tsd_list = 10 ∷ [];
  user_destructor = true;
  data_of = update (λ x. 0) 10 5;
  trace = mutex_unlock ∷ mutex_lock ∷ [];
}

used_key-IsTracked : IsTracked lists slots used_key
used_key-IsTracked = record {
  listed = λ t h. ground arith;
  own = λ t u h e. ground arith;
  distinct = (refl, tt);
  not_null = ground arith;
}

set_first : tracked_key_set lists slots sample_codes 10 1 5 fresh_key ≡ (0, used_key)
unfolding tracked_key_set
set_first = refl

-- The key after the end of the thread that had the item.
empty_again : (thread_exit lists slots sample_codes 1 used_key).tsd_list ≡ []
unfolding thread_exit
empty_again = refl

-- A library in which nothing is stored for thread 9.
abbrev specific : Specific (ℕ → Ptr)
specific = record {
  lib_success = 0;
  get_specific = λ s t. (0, s t);
  set_specific = λ s t p. if t == 9 then (12, s) else (0, update s t p);
  ensure_init = λ s. s;
}

specific-IsSpecific : IsSpecific specific argobots
specific-IsSpecific = record {
  success-code = tt;
  get-set = λ s t q p done. ground arith;
  get-set_failed = λ s t q p failed. ground arith;
  get-init = λ s q. refl;
}

slot_ops-IsSlots_example : IsSlots sample_codes (slot_ops sample_codes specific argobots)
slot_ops-IsSlots_example =
    slot_ops-IsSlots sample_codes specific argobots sample_codes-IsCodes specific-IsSpecific

-- Thread 1 sets two values and ends, thread 2 sets one, and there is no memory for thread 3.
abbrev steps : List Step
steps = set 10 1 5 ∷ set 20 2 7 ∷ set 30 1 6 ∷ exit 1 ∷ set 0 3 4 ∷ []

steps-IsPlayed :
    IsPlayed lists slots sample_codes steps
      (new_key lists slots sample_codes (λ t. 0) (λ x. 0) true)
unfolding IsPlayed tracked_key_constructor tracked_key_set_destructor
steps-IsPlayed = (ground arith, (ground arith, (ground arith, (refl, (ground arith, tt)))))

one_destroyed :
    destroyed_in
      (run lists slots sample_codes steps
        (new_key lists slots sample_codes (λ t. 0) (λ x. 0) true)).1.trace
    ≡ 6 ∷ []
unfolding run tracked_key_constructor tracked_key_set_destructor
one_destroyed = refl

run-refines_example :
    (let r =
        run lists slots sample_codes steps
          (new_key lists slots sample_codes (λ t. 0) (λ x. 0) true) in
      let a = values_run sample_codes true steps r.0 no_values in
      (tracked_key_get lists slots sample_codes 2 r.1 ≡ value_or_null (a.value 2))
      × (destroyed_in r.1.trace ≡ a.destroyed))
run-refines_example =
    run-refines lists-IsList slots-IsSlots sample_codes-IsCodes (λ t. 0) (λ x. 0) true steps 2
      (λ t. refl) steps-IsPlayed
