-- ===== src/Tsd/Exit.antt =====
-- src/impl/base/tsd.c: what is left of a thread that ends.
use libult.Base.{
  has-without, IsDistinct-without, ℕ, ◌≡◌, sym, Ptr, null, false, List, ◌∷◌, arith, ◌==◌,
  if◌then◌else◌, if_true, if_false, ◌∈◌, ◌∉◌, IsDistinct, Bool-cases, inl, inr, Codes,
}
use libult.Tsd.{
  ListOps, IsList, SlotOps, IsSlots, Tracked, Event, release, destroy, mutex_lock, mutex_unlock,
  tracked_key_get, finish_item, tracked_destructor, thread_exit,
}
use libult.Tsd.Inv.{IsTracked}

-- What the end of a thread with the item `tsd` adds to the trace.
abbrev pub exit_trace : {L S : Type 0} → Ptr → Tracked L S → List Event
exit_trace tsd key =
    release tsd
    ∷ (if key.user_destructor
        then destroy (key.data_of tsd) ∷ mutex_unlock ∷ mutex_lock ∷ key.trace
        else mutex_unlock ∷ mutex_lock ∷ key.trace)

module _ {L S : Type 0} {lists : ListOps L} {ops : SlotOps S} {codes : Codes}
    (is_list : IsList lists) (is_slots : IsSlots codes ops) where
  -- A key after thread `t` has ended.
  pub record IsExited (t : ℕ) (key key' : Tracked L S) : Type 0 where
    pub tracked : IsTracked lists ops key'
    pub gone : ops.tsd_get key'.slots t ≡ null
    pub kept :
        (q : ℕ)
        → (t == q) ≡ false
        → tracked_key_get lists ops codes q key' ≡ tracked_key_get lists ops codes q key
    pub reported : key'.trace ≡ (
        if ops.tsd_get key.slots t == null
        then key.trace
        else exit_trace (ops.tsd_get key.slots t) key)

  -- The slots of the others, where the thread had no item or its item is taken off the list.
  cleared-IsExited :
      (t : ℕ) (key : Tracked L S) (tsd_list : L) (trace : List Event)
      → IsTracked lists ops key
      → (ops.tsd_set key.slots t null).0 ≡ codes.success
      → ((q : ℕ)
          → (t == q) ≡ false
          → (ops.tsd_get key.slots q == null) ≡ false
          → ops.tsd_get key.slots q ∈ lists.items tsd_list)
      → IsDistinct (lists.items tsd_list)
      → null ∉ lists.items tsd_list
      → trace ≡ (
          if ops.tsd_get key.slots t == null
          then key.trace
          else exit_trace (ops.tsd_get key.slots t) key)
      → IsExited t key (record key {
        slots = (ops.tsd_set key.slots t null).1;
        tsd_list = tsd_list;
        trace = trace;
      })
  unfolding tracked_key_get
  cleared-IsExited t key l tr inv done others distinct no_null e =
      let slot = λ (q : ℕ). is_slots.get-set key.slots t q null done in
      record {
        tracked = record {
          listed = λ u h. ground (arith, slot u, others u);
          own = λ u v h f. ground (arith, slot u, slot v, inv.own u v);
          distinct = distinct;
          not_null = no_null;
        };
        gone = ground (arith, slot t);
        kept = λ q ne. ground (arith, slot q);
        reported = e;
      }

  -- When a thread ends and the thread library clears its value, its item, if it has one, leaves the
  -- key's list, the destructor of the user, if one is set, gets the value, and the item is
  -- released after that; the other threads get the values that they got before, and each of
  -- them still has an item of its own on the list.
  pub thread_exit-IsExited :
      (t : ℕ) (key : Tracked L S)
      → IsTracked lists ops key
      → (ops.tsd_set key.slots t null).0 ≡ codes.success
      → IsExited t key (thread_exit lists ops codes t key)
  unfolding thread_exit tracked_destructor finish_item
  thread_exit-IsExited t key inv done = elim (Bool-cases (ops.tsd_get key.slots t == null)) [
    | inl e ↦ rw (if_true {A = Tracked L S} (ops.tsd_get key.slots t == null) _ _ e) (
        cleared-IsExited t key key.tsd_list key.trace inv done (λ q ne h. inv.listed q h)
          inv.distinct inv.not_null (sym (if_true (ops.tsd_get key.slots t == null) _ _ e)))
    | inr e ↦
        let tsd = ops.tsd_get key.slots t in
        let items = lists.items key.tsd_list in
        let off = is_list.remove_item-items key.tsd_list tsd in
        rw (if_false {A = Tracked L S} (ops.tsd_get key.slots t == null) _ _ e) (
          cleared-IsExited t key (lists.remove_item key.tsd_list tsd) (exit_trace tsd key) inv done
            (λ q ne h. rw off (
              ground (
                arith,
                has-without tsd (ops.tsd_get key.slots q) items inv.distinct,
                inv.own t q,
                inv.listed q,
              )))
            (rw off (IsDistinct-without tsd items inv.distinct))
            (rw off (ground (arith, has-without tsd null items inv.distinct, inv.not_null)))
            (sym (if_false (ops.tsd_get key.slots t == null) _ _ e)))
  ]
