-- ===== src/Tsd/Calls.antt =====
-- src/tsd.h and src/impl/base/tsd.c: what is set is what is got, and what the destructors do.
use libult.Base.{
  without, ℕ, ◌≡◌, refl, ◌∙◌, ap, sym, Ptr, null, Bool, List, [], ◌∷◌, arith, ◌==◌, if◌then◌else◌,
  if_true, has-append, ◌∉◌, Bool-cases, inl, inr, Codes, IsCodes, ==_refl,
}
use libult.Tsd.{
  ListOps, IsList, SlotOps, IsSlots, Tracked, Event, key_delete, destroy, release, tracked_key_get,
  append_item, tracked_key_set, finish_item, destroy_items, tracked_key_destructor,
}
use libult.Tsd.Inv.{
  IsTracked, store_item-get, store_item-IsTracked, append_item-IsTracked, set_known, set_new,
  set_no_memory, apart_known, apart_new,
}

-- What is reported for items that are finished one after another.
abbrev pub finished : Bool → (Ptr → ℕ) → List Ptr → List Event → List Event
finished d data_of [] tr = tr
finished d data_of (x ∷ xs) tr =
    finished d data_of xs (release x ∷ (if d then destroy (data_of x) ∷ tr else tr))

module _ {L S : Type 0} {lists : ListOps L} {ops : SlotOps S} {codes : Codes}
    (is_list : IsList lists) (is_slots : IsSlots codes ops) (is_codes : IsCodes codes) where
  -- A value that a thread sets successfully is what it gets from then on, and what every other
  -- thread gets does not change, whether the thread had an item or a new one was allocated.
  pub tracked_key_get-set :
      (fresh : Ptr) (t p : ℕ) (key : Tracked L S) (q : ℕ)
      → IsTracked lists ops key
      → fresh ∉ lists.items key.tsd_list
      → (tracked_key_set lists ops codes fresh t p key).0 ≡ codes.success
      → tracked_key_get lists ops codes q (tracked_key_set lists ops codes fresh t p key).1
        ≡ (if t == q then p else tracked_key_get lists ops codes q key)
  unfolding tracked_key_get
  tracked_key_get-set fresh t p key q inv out done =
      elim (Bool-cases (ops.tsd_get key.slots t == null)) [
        | inr e ↦
            let step = set_known is_list is_slots is_codes fresh t p key e in
            rw step (
              store_item-get is_list is_slots is_codes t (ops.tsd_get key.slots t) p key q e
                (apart_known is_list is_slots is_codes key t q inv e) (rw step at done))
        | inl e ↦ elim (Bool-cases (fresh == null)) [
          | inr f ↦
              let step = set_new is_list is_slots is_codes fresh t p key e f in
              rw step (
                store_item-get is_list is_slots is_codes t fresh p
                  (append_item lists ops codes fresh key) q f
                  (λ _. apart_new is_list is_slots is_codes key fresh q inv f out)
                  (rw step at done))
          | inl f ↦ absurd (
              is_codes.err_out_of_resource-ne (
                sym (
                  ap (λ (r : ℕ × Tracked L S). r.0)
                    (set_no_memory is_list is_slots is_codes fresh t p key e f))
                ∙ done))
        ]
      ]

  -- The threads' items stay apart and on the list through every call of `tsd_tracked_key_set`: with
  -- an item there or a new one, out of memory, and where `tsd_set` fails.
  pub tracked_key_set-IsTracked :
      (fresh : Ptr) (t p : ℕ) (key : Tracked L S)
      → IsTracked lists ops key
      → fresh ∉ lists.items key.tsd_list
      → IsTracked lists ops (tracked_key_set lists ops codes fresh t p key).1
  tracked_key_set-IsTracked fresh t p key inv out =
      elim (Bool-cases (ops.tsd_get key.slots t == null)) [
        | inr e ↦ rw (set_known is_list is_slots is_codes fresh t p key e) (
            store_item-IsTracked is_list is_slots is_codes t (ops.tsd_get key.slots t) p key inv e
              (inv.listed t e) (λ q. apart_known is_list is_slots is_codes key t q inv e))
        | inl e ↦ elim (Bool-cases (fresh == null)) [
          | inr f ↦ rw (set_new is_list is_slots is_codes fresh t p key e f) (
              store_item-IsTracked is_list is_slots is_codes t fresh p
                (append_item lists ops codes fresh key)
                (append_item-IsTracked is_list is_slots is_codes fresh key inv f out) f
                (rw
                  (
                    is_list.append-items key.tsd_list fresh,
                    has-append fresh (lists.items key.tsd_list) (fresh ∷ []),
                  )
                  (ground arith))
                (λ q _. apart_new is_list is_slots is_codes key fresh q inv f out))
          | inl f ↦ rw (set_no_memory is_list is_slots is_codes fresh t p key e f) inv
        ]
      ]

  -- The loop, on a list that holds the items `xs`.
  destroy_items-finished :
      (xs : List Ptr) (key : Tracked L S)
      → lists.items key.tsd_list ≡ xs
      → (lists.items (destroy_items lists ops codes xs key).tsd_list ≡ [])
        × ((destroy_items lists ops codes xs key).trace
            ≡ finished key.user_destructor key.data_of xs key.trace)
  unfolding destroy_items finish_item
  destroy_items-finished [] key e = (e, refl)
  destroy_items-finished (x ∷ xs) key e = destroy_items-finished xs _ (
      is_list.remove_item-items key.tsd_list x
      ∙ ap (without x) e
      ∙ if_true (x == x) _ _ (==_refl x))

  -- The destruction of a key deletes it and then goes through its items in order: the user's
  -- destructor, if one is set, gets the value of each, once, and each is released after that. The
  -- list is empty at the end.
  pub tracked_key_destructor-finished :
      (key : Tracked L S)
      → (lists.items (tracked_key_destructor lists ops codes key).tsd_list ≡ [])
        × ((tracked_key_destructor lists ops codes key).trace
            ≡ finished key.user_destructor key.data_of
                (lists.items key.tsd_list)
                (key_delete ∷ key.trace))
  unfolding tracked_key_destructor
  tracked_key_destructor-finished key = destroy_items-finished (lists.items key.tsd_list) _ refl
