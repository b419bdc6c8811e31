-- ===== src/Tsd.antt =====
-- src/tsd.h and src/impl/base/tsd.c: tracked keys of thread-specific data. One key is modelled, with
-- the values of all threads. The list type and the store of the threads' slots are not defined
-- there: they are the parameters `ListOps` and `SlotOps`.
pub mod Inv
pub mod Calls
pub mod Exit
pub mod Run
pub mod Slots
pub mod Keys
mod Tests
use libult.Base.{
  without, ℕ, ◌≡◌, ◌≢◌, Ptr, null, Bool, true, false, List, [], ◌∷◌, ◌++◌, ◌==◌, if◌then◌else◌,
  update, ◌∈◌, Codes,
}

-- `list_t` of a header that the repository does not hold, as far as the code uses it: `OBJ_CONSTRUCT`,
-- `list_append`, `list_remove_item` and the order of `LIST_FOREACH_SAFE`.
pub record ListOps (L : Type 0) : Type 0 where
  pub construct : L
  pub append : L → Ptr → L
  pub remove_item : L → Ptr → L
  pub items : L → List Ptr

-- What their documentation says of them.
pub record IsList {L : Type 0} (ops : ListOps L) : Type 0 where
  pub construct-items : ops.items ops.construct ≡ []
  pub append-items : (l : L) (x : Ptr) → ops.items (ops.append l x) ≡ ops.items l ++ x ∷ []
  pub remove_item-items :
      (l : L) (x : Ptr) → ops.items (ops.remove_item l x) ≡ without x (ops.items l)

-- `tsd_get` and `tsd_set` for the key, with the calling thread as an argument.
pub record SlotOps (S : Type 0) : Type 0 where
  pub tsd_get : S → ℕ → Ptr
  pub tsd_set : S → ℕ → Ptr → ℕ × S

-- The documentation in src/tsd.h: a value that is set is the calling thread's, and no other thread's
-- value changes; a call that fails changes nothing.
pub record IsSlots {S : Type 0} (codes : Codes) (ops : SlotOps S) : Type 0 where
  pub get-set :
      (s : S) (t q : ℕ) (p : Ptr)
      → (ops.tsd_set s t p).0 ≡ codes.success
      → ops.tsd_get (ops.tsd_set s t p).1 q ≡ (if t == q then p else ops.tsd_get s q)
  pub get-set_failed :
      (s : S) (t q : ℕ) (p : Ptr)
      → (ops.tsd_set s t p).0 ≢ codes.success
      → ops.tsd_get (ops.tsd_set s t p).1 q ≡ ops.tsd_get s q

-- Calls that leave the component.
pub data Event : Type 0 where
  mutex_lock : Event
  mutex_unlock : Event
  key_delete : Event
  destroy : ℕ → Event  -- the user's destructor, with the value
  release : Ptr → Event  -- `OBJ_RELEASE` of an item

-- `tsd_tracked_key_t`, the `data` of all items and the slots of all threads. The latest call comes
-- first in the trace.
pub record Tracked (L S : Type 0) : Type 0 where
  pub slots : S
  pub tsd_list : L
  pub user_destructor : Bool  -- is one set?
  pub data_of : Ptr → ℕ
  pub trace : List Event

module _ {L S : Type 0} (lists : ListOps L) (ops : SlotOps S) (codes : Codes) where
  -- `tsd_tracked_key_constructor`, with the slots as the creation of the key leaves them.
  unfoldable pub tracked_key_constructor : S → (Ptr → ℕ) → Tracked L S
  tracked_key_constructor slots data_of = record {
    slots = slots;
    tsd_list = lists.construct;
    user_destructor = false;
    data_of = data_of;
    trace = [];
  }

  -- `tsd_tracked_key_get`: what it stores at `p`; it returns `SUCCESS` always.
  unfoldable pub tracked_key_get : ℕ → Tracked L S → ℕ
  tracked_key_get t key =
      let tsd = ops.tsd_get key.slots t in if tsd == null then null else key.data_of tsd

  -- The new item is appended under the key's mutex.
  abbrev pub append_item : Ptr → Tracked L S → Tracked L S
  append_item tsd key = record key {
    tsd_list = lists.append key.tsd_list tsd;
    trace = mutex_unlock ∷ mutex_lock ∷ key.trace;
  }

  -- `tsd->data = p; tsd->tracked_key = key; return tsd_set(key->key, tsd)`
  abbrev pub store_item : ℕ → Ptr → ℕ → Tracked L S → ℕ × Tracked L S
  store_item t tsd p key =
      let (rc, slots) = ops.tsd_set key.slots t tsd in
      (rc, record key { data_of = update key.data_of tsd p; slots = slots })

  -- `tsd_tracked_key_set`, where `OBJ_NEW` gives `fresh`.
  unfoldable pub tracked_key_set : Ptr → ℕ → ℕ → Tracked L S → ℕ × Tracked L S
  tracked_key_set fresh t p key =
      let tsd = ops.tsd_get key.slots t in
      if tsd == null
      then if fresh == null
        then (codes.err_out_of_resource, key)
        else store_item t fresh p (append_item fresh key)
      else store_item t tsd p key

  -- `tsd_tracked_key_set_destructor`
  unfoldable pub tracked_key_set_destructor : Bool → Tracked L S → Tracked L S
  tracked_key_set_destructor destructor key = record key { user_destructor = destructor }

  -- The user's destructor, if there is one, and the release of the item.
  unfoldable pub finish_item : Ptr → Tracked L S → Tracked L S
  finish_item tsd key = record key {
    trace =
        release tsd
        ∷ (if key.user_destructor then destroy (key.data_of tsd) ∷ key.trace else key.trace);
  }

  -- `_tracked_destructor`, which runs when a thread ends.
  unfoldable pub tracked_destructor : Ptr → Tracked L S → Tracked L S
  unfolding finish_item
  tracked_destructor arg key =
      if arg == null
      then key
      else finish_item arg (record key {
        tsd_list = lists.remove_item key.tsd_list arg;
        trace = mutex_unlock ∷ mutex_lock ∷ key.trace;
      })

  -- The end of thread `t`, as the thread library documents it: the thread's value is cleared, and the
  -- destructor of the key runs with what it was.
  unfoldable pub thread_exit : ℕ → Tracked L S → Tracked L S
  unfolding tracked_destructor
  thread_exit t key =
      tracked_destructor (ops.tsd_get key.slots t)
        (record key { slots = (ops.tsd_set key.slots t null).1 })

  -- The loop of `tsd_tracked_key_destructor`, over the items that the list had at its start.
  unfoldable pub destroy_items : List Ptr → Tracked L S → Tracked L S
  unfolding finish_item
  destroy_items [] key = key
  destroy_items (tsd ∷ rest) key =
      destroy_items rest
        (finish_item tsd (record key { tsd_list = lists.remove_item key.tsd_list tsd }))

  -- `tsd_tracked_key_destructor`, without the destruction of the mutex and of the empty list.
  unfoldable pub tracked_key_destructor : Tracked L S → Tracked L S
  unfolding destroy_items
  tracked_key_destructor key =
      destroy_items (lists.items key.tsd_list) (record key { trace = key_delete ∷ key.trace })
