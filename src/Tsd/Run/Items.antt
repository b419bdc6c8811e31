-- ===== src/Tsd/Run/Items.antt =====
-- src/impl/base/tsd.c: what a call does to the values in the threads' items.
use libult.Base.{
  ℕ, ◌≡◌, ◌∙◌, Ptr, null, true, false, Option, none, some, ◌==◌, if◌then◌else◌, ◌∉◌, Bool-cases,
  inl, inr, arith, Codes, IsCodes, ==_iff,
}
use libult.Tsd.{
  ListOps, IsList, SlotOps, IsSlots, Tracked, tracked_key_set, append_item, store_item,
  tracked_destructor, finish_item, thread_exit,
}
use libult.Tsd.Inv.{IsTracked, set_known, set_new, set_no_memory, apart_known, apart_new}
use libult.Tsd.Run.{stored, left, destroyed_in}

module _ {L S : Type 0} (lists : ListOps L) (ops : SlotOps S) where
  -- The value in the item of a thread, if it has one.
  abbrev pub item_value : Tracked L S → ℕ → Option ℕ
  item_value key q =
      let tsd = ops.tsd_get key.slots q in if tsd == null then none else some (key.data_of tsd)

module _ {L S : Type 0} {lists : ListOps L} {ops : SlotOps S} {codes : Codes}
    (is_list : IsList lists) (is_slots : IsSlots codes ops) (is_codes : IsCodes codes) where
  -- An item that is there gets the value in any case.
  store_known :
      (t p : ℕ) (key : Tracked L S) (q : ℕ)
      → IsTracked lists ops key
      → (ops.tsd_get key.slots t == null) ≡ false
      → item_value lists ops (store_item lists ops codes t (ops.tsd_get key.slots t) p key).1 q
        ≡ (if t == q then some p else item_value lists ops key q)
  store_known t p key q inv e =
      elim (Bool-cases
        ((store_item lists ops codes t (ops.tsd_get key.slots t) p key).0 == codes.success)) [
          | inl d ↦ ground (
            arith,
            is_slots.get-set key.slots t q (ops.tsd_get key.slots t) ((==_iff _ _).0 d),
            apart_known is_list is_slots is_codes key t q inv e,
          )
          | inr d ↦ ground (
            arith,
            is_slots.get-set_failed key.slots t q (ops.tsd_get key.slots t),
            apart_known is_list is_slots is_codes key t q inv e,
          )
        ]

  -- A new one does if `tsd_set` succeeds.
  store_new :
      (fresh : Ptr) (t p : ℕ) (key : Tracked L S) (q : ℕ)
      → (fresh == null) ≡ false
      → (ops.tsd_get key.slots q == fresh) ≡ false
      → (ops.tsd_get key.slots t == null) ≡ true
      → item_value lists ops
          (store_item lists ops codes t fresh p (append_item lists ops codes fresh key)).1
          q
        ≡ (if t == q
            then stored
                ((store_item lists ops codes t fresh p (append_item lists ops codes fresh key)).0
                  == codes.success)
                p
                none
            else item_value lists ops key q)
  store_new fresh t p key q f apart e =
      elim (Bool-cases (
        (store_item lists ops codes t fresh p (append_item lists ops codes fresh key)).0
        == codes.success)) [
          | inl d ↦ ground (arith, is_slots.get-set key.slots t q fresh ((==_iff _ _).0 d))
          | inr d ↦ ground (arith, is_slots.get-set_failed key.slots t q fresh)
        ]

  pub set_value :
      (fresh : Ptr) (t p : ℕ) (key : Tracked L S) (q : ℕ)
      → IsTracked lists ops key
      → fresh ∉ lists.items key.tsd_list
      → item_value lists ops (tracked_key_set lists ops codes fresh t p key).1 q ≡ (
          if t == q
          then stored
              ((tracked_key_set lists ops codes fresh t p key).0 == codes.success)
              p
              (item_value lists ops key t)
          else item_value lists ops key q)
  set_value fresh t p key q inv out = elim (Bool-cases (ops.tsd_get key.slots t == null)) [
    | inr e ↦
        rw (set_known is_list is_slots is_codes fresh t p key e)
          (store_known t p key q inv e ∙ ground arith)
    | inl e ↦ elim (Bool-cases (fresh == null)) [
      | inr f ↦ rw (set_new is_list is_slots is_codes fresh t p key e f) (
          store_new fresh t p key q f (apart_new is_list is_slots is_codes key fresh q inv f out) e
          ∙ ground arith)
      | inl f ↦
          rw (set_no_memory is_list is_slots is_codes fresh t p key e f)
            (ground (arith, is_codes.err_out_of_resource-ne))
    ]
  ]

  pub set_rest :
      (fresh : Ptr) (t p : ℕ) (key : Tracked L S)
      → (destroyed_in (tracked_key_set lists ops codes fresh t p key).1.trace
          ≡ destroyed_in key.trace)
        × ((tracked_key_set lists ops codes fresh t p key).1.user_destructor ≡ key.user_destructor)
  unfolding tracked_key_set
  set_rest fresh t p key = (ground arith, ground arith)

  pub exit_value :
      (t : ℕ) (key : Tracked L S) (q : ℕ)
      → (ops.tsd_set key.slots t null).0 ≡ codes.success
      → item_value lists ops (thread_exit lists ops codes t key) q
        ≡ (if t == q then none else item_value lists ops key q)
  unfolding thread_exit tracked_destructor finish_item
  exit_value t key q done = ground (arith, is_slots.get-set key.slots t q null done)

  pub exit_rest :
      (t : ℕ) (key : Tracked L S)
      → (destroyed_in (thread_exit lists ops codes t key).trace
          ≡ left key.user_destructor (item_value lists ops key t) (destroyed_in key.trace))
        × ((thread_exit lists ops codes t key).user_destructor ≡ key.user_destructor)
  unfolding thread_exit tracked_destructor finish_item
  exit_rest t key = (ground arith, ground arith)
