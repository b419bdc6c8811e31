-- ===== src/Tsd/Run.antt =====
-- src/impl/base/tsd.c: any number of threads that set values under one tracked key and end, as a
-- sequence of calls, and the abstract view: a value for each thread that has one, and the values
-- that the user's destructor has had.
pub mod Items
pub mod Refines
use libult.Base.{
  ℕ, ◌≡◌, Ptr, null, Bool, true, false, Option, none, some, List, [], ◌∷◌, ◌==◌, if◌then◌else◌,
  update, ◌∉◌, Codes,
}
use libult.Tsd.{
  ListOps, SlotOps, Tracked, Event, mutex_lock, mutex_unlock, key_delete, destroy, release,
  tracked_key_set, thread_exit,
}

pub data Step : Type 0 where
  set : (fresh : Ptr) → ℕ → ℕ → Step  -- thread and value; `OBJ_NEW` would give `fresh`
  exit : ℕ → Step

module _ {L S : Type 0} (lists : ListOps L) (ops : SlotOps S) (codes : Codes) where
  -- A call, with what it returns.
  unfoldable pub step : Step → Tracked L S → ℕ × Tracked L S
  unfolding tracked_key_set thread_exit
  step (set fresh t p) key = tracked_key_set lists ops codes fresh t p key
  step (exit t) key = (codes.success, thread_exit lists ops codes t key)

  unfoldable pub run : List Step → Tracked L S → List ℕ × Tracked L S
  unfolding step
  run [] key = ([], key)
  run (s ∷ ss) key =
      let (rc, key1) = step s key in let (rcs, key2) = run ss key1 in (rc ∷ rcs, key2)

  -- What the calls rely on: `OBJ_NEW` gives no memory that is in use, and the thread library clears the
  -- value of a thread that ends.
  unfoldable pub IsPlayed : List Step → Tracked L S → Type 0
  unfolding step
  IsPlayed [] key = Unit
  IsPlayed (set fresh t p ∷ ss) key =
      (fresh ∉ lists.items key.tsd_list) × IsPlayed ss (step (set fresh t p) key).1
  IsPlayed (exit t ∷ ss) key =
      ((ops.tsd_set key.slots t null).0 ≡ codes.success) × IsPlayed ss (step (exit t) key).1

-- The values of the threads that have one, and the values destroyed, the latest first.
pub record Values : Type 0 where
  pub value : ℕ → Option ℕ
  pub destroyed : List ℕ

abbrev pub value_or_null : Option ℕ → ℕ
value_or_null none = null
value_or_null (some p) = p

-- A thread that has an item keeps it, and so gets the value whatever is returned.
abbrev pub stored : (done : Bool) → ℕ → Option ℕ → Option ℕ
stored done p (some q) = some p
stored done p none = if done then some p else none

abbrev pub left : (destructor : Bool) → Option ℕ → List ℕ → List ℕ
left destructor none ps = ps
left destructor (some p) ps = if destructor then p ∷ ps else ps

abbrev pub values_step : Codes → Bool → Step → ℕ → Values → Values
values_step codes destructor (set fresh t p) rc a = record a {
  value = update a.value t (stored (rc == codes.success) p (a.value t));
}
values_step codes destructor (exit t) rc a = record {
  value = update a.value t none;
  destroyed = left destructor (a.value t) a.destroyed;
}

unfoldable pub values_run : Codes → Bool → List Step → List ℕ → Values → Values
values_run codes destructor (s ∷ ss) (rc ∷ rcs) a =
    values_run codes destructor ss rcs (values_step codes destructor s rc a)
values_run codes destructor _ _ a = a

abbrev pub no_values : Values
no_values = record { value = λ t. none; destroyed = [] }

-- The values that the user's destructor has had, in a trace.
abbrev pub destroyed_in : List Event → List ℕ
destroyed_in [] = []
destroyed_in (destroy p ∷ es) = p ∷ destroyed_in es
destroyed_in (mutex_lock ∷ es) = destroyed_in es
destroyed_in (mutex_unlock ∷ es) = destroyed_in es
destroyed_in (key_delete ∷ es) = destroyed_in es
destroyed_in (release x ∷ es) = destroyed_in es
