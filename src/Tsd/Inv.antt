-- ===== src/Tsd/Inv.antt =====
-- src/impl/base/tsd.c: each thread has an item of its own, on the key's list, and `set` and `get` go
-- through it.
use libult.Base.{
  ℕ, ◌≡◌, ◌∙◌, Ptr, null, true, false, [], ◌∷◌, arith, ◌==◌, if◌then◌else◌, if_true, if_false,
  has-append, ◌∈◌, ◌∉◌, IsDistinct, IsDistinct-snoc, Bool-cases, inl, inr, Codes, IsCodes, ==_iff,
}
use libult.Tsd.{
  ListOps, IsList, SlotOps, IsSlots, Tracked, tracked_key_get, append_item, store_item,
  tracked_key_set,
}

module _ {L S : Type 0} (lists : ListOps L) (ops : SlotOps S) where
  -- The item of a thread is on the list, and no other thread's.
  pub record IsTracked (key : Tracked L S) : Type 0 where
    pub listed :
        (t : ℕ)
        → (ops.tsd_get key.slots t == null) ≡ false
        → ops.tsd_get key.slots t ∈ lists.items key.tsd_list
    pub own :
        (t u : ℕ)
        → (ops.tsd_get key.slots t == null) ≡ false
        → ops.tsd_get key.slots t ≡ ops.tsd_get key.slots u
        → t ≡ u
    pub distinct : IsDistinct (lists.items key.tsd_list)
    pub not_null : null ∉ lists.items key.tsd_list

module _ {L S : Type 0} {lists : ListOps L} {ops : SlotOps S} {codes : Codes}
    (is_list : IsList lists) (is_slots : IsSlots codes ops) (is_codes : IsCodes codes) where
  -- A value stored in an item that is no other thread's.
  pub store_item-get :
      (t : ℕ) (tsd : Ptr) (p : ℕ) (key : Tracked L S) (q : ℕ)
      → (tsd == null) ≡ false
      → ((t == q) ≡ false → (ops.tsd_get key.slots q == tsd) ≡ false)
      → (store_item lists ops codes t tsd p key).0 ≡ codes.success
      → tracked_key_get lists ops codes q (store_item lists ops codes t tsd p key).1
        ≡ (if t == q then p else tracked_key_get lists ops codes q key)
  unfolding tracked_key_get
  store_item-get t tsd p key q ne apart done =
      ground (arith, is_slots.get-set key.slots t q tsd done, apart)

  -- Whether the call succeeds or not, the threads' items stay apart.
  pub store_item-IsTracked :
      (t : ℕ) (tsd : Ptr) (p : ℕ) (key : Tracked L S)
      → IsTracked lists ops key
      → (tsd == null) ≡ false
      → tsd ∈ lists.items key.tsd_list
      → ((q : ℕ) → (t == q) ≡ false → (ops.tsd_get key.slots q == tsd) ≡ false)
      → IsTracked lists ops (store_item lists ops codes t tsd p key).1
  store_item-IsTracked t tsd p key inv ne m apart =
      elim (Bool-cases ((store_item lists ops codes t tsd p key).0 == codes.success)) [
        | inl e ↦
            let slot = λ (q : ℕ). is_slots.get-set key.slots t q tsd ((==_iff _ _).0 e) in
            record {
              listed = λ u h. ground (arith, slot u, inv.listed u);
              own = λ u v h f. ground (arith, slot u, slot v, inv.own u v, apart u, apart v);
              distinct = inv.distinct;
              not_null = inv.not_null;
            }
        | inr e ↦
            let slot = λ (q : ℕ). is_slots.get-set_failed key.slots t q tsd (ground arith) in
            record {
              listed = λ u h. ground (arith, slot u, inv.listed u);
              own = λ u v h f. ground (arith, slot u, slot v, inv.own u v);
              distinct = inv.distinct;
              not_null = inv.not_null;
            }
      ]

  pub append_item-IsTracked :
      (fresh : Ptr) (key : Tracked L S)
      → IsTracked lists ops key
      → (fresh == null) ≡ false
      → fresh ∉ lists.items key.tsd_list
      → IsTracked lists ops (append_item lists ops codes fresh key)
  append_item-IsTracked fresh key inv ne out =
      let longer = is_list.append-items key.tsd_list fresh in
      record {
        listed = λ t h.
            rw (longer, has-append _ (lists.items key.tsd_list) (fresh ∷ []))
              (ground (arith, inv.listed t h));
        own = inv.own;
        distinct = rw longer (IsDistinct-snoc fresh _ inv.distinct out);
        not_null =
            rw (longer, has-append null (lists.items key.tsd_list) (fresh ∷ []))
              (ground (arith, inv.not_null));
      }

  -- The three ways through `tsd_tracked_key_set`.
  pub set_known :
      (fresh : Ptr) (t p : ℕ) (key : Tracked L S)
      → (ops.tsd_get key.slots t == null) ≡ false
      → tracked_key_set lists ops codes fresh t p key
        ≡ store_item lists ops codes t (ops.tsd_get key.slots t) p key
  unfolding tracked_key_set
  set_known fresh t p key e = if_false (ops.tsd_get key.slots t == null) _ _ e

  pub set_new :
      (fresh : Ptr) (t p : ℕ) (key : Tracked L S)
      → (ops.tsd_get key.slots t == null) ≡ true
      → (fresh == null) ≡ false
      → tracked_key_set lists ops codes fresh t p key
        ≡ store_item lists ops codes t fresh p (append_item lists ops codes fresh key)
  unfolding tracked_key_set
  set_new fresh t p key e f =
      if_true (ops.tsd_get key.slots t == null) _ _ e ∙ if_false (fresh == null) _ _ f

  pub set_no_memory :
      (fresh : Ptr) (t p : ℕ) (key : Tracked L S)
      → (ops.tsd_get key.slots t == null) ≡ true
      → (fresh == null) ≡ true
      → tracked_key_set lists ops codes fresh t p key ≡ (codes.err_out_of_resource, key)
  unfolding tracked_key_set
  set_no_memory fresh t p key e f =
      if_true (ops.tsd_get key.slots t == null) _ _ e ∙ if_true (fresh == null) _ _ f

  pub apart_known :
      (key : Tracked L S) (t q : ℕ)
      → IsTracked lists ops key
      → (ops.tsd_get key.slots t == null) ≡ false
      → (t == q) ≡ false
      → (ops.tsd_get key.slots q == ops.tsd_get key.slots t) ≡ false
  apart_known key t q inv ne e = ground (arith, inv.own t q)

  pub apart_new :
      (key : Tracked L S) (fresh : Ptr) (q : ℕ)
      → IsTracked lists ops key
      → (fresh == null) ≡ false
      → fresh ∉ lists.items key.tsd_list
      → (ops.tsd_get key.slots q == fresh) ≡ false
  apart_new key fresh q inv ne out = ground (arith, inv.listed q)
