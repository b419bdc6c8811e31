-- ===== src/WaitSync/Protocol/Places.antt =====
-- src/wait_sync.h and src/impl/base/wait_sync.c: where a thread is between two accesses, and what that
-- says of the locks.
use libult.Base.{ℕ, Bool, true, false, Option, none, some, List, [], ◌∷◌, ◌==◌}

-- The thread that waits.
pub data Place : Type 0 where
  start : Place  -- before the first test of the count
  entering : Place  -- wants the structure's lock
  testing : Place  -- tests the count again
  listing : Place  -- wants the list's lock
  inserting : Place
  deciding : Place  -- at check_status
  falling : Place  -- will sleep
  sleeping : Place
  woken : Place  -- wants the structure's lock again
  rechecking : Place  -- tests the count behind the sleep
  driving : Place  -- in the progress loop
  trimming : Place  -- wants the list's lock
  unlinking : Place
  handing : Place  -- passes its duties on, if there are any
  releasing : Place  -- in the loop of WAIT_SYNC_RELEASE
  gone : Place

-- The thread that reports the last completion.
pub data Last : Type 0 where
  pending : Last  -- completions are missing
  locking : Last  -- the count is 0
  signalling : Last
  unlocking : Last
  clearing : Last  -- will clear `signaling`
  finished : Last

-- Who has a structure's lock.
pub data Owner : Type 0 where
  free : Owner
  own : Owner
  signaller : Owner
  passer : Owner

-- What is left of the duties' passing: nothing, the lock, the signal, the unlock.
pub data Pass : Type 0 where
  idle : Pass
  passing : ℕ → Pass
  waking : ℕ → Pass
  freeing : ℕ → Pass

-- A signal to a thread that does not sleep is lost.
abbrev pub wakes : Place → Place
wakes sleeping = woken
wakes p = p

abbrev pub is_head : ℕ → List ℕ → Bool
is_head s [] = false
is_head s (h ∷ hs) = s == h

abbrev pub first : List ℕ → Pass
first [] = idle
first (h ∷ hs) = passing h

abbrev pub owner : ℕ → Option ℕ → Bool
owner s none = false
owner s (some t) = s == t

-- The places with the structure's lock, on the list, and with the list's lock.
abbrev pub holds : Place → Bool
holds testing = true
holds listing = true
holds inserting = true
holds deciding = true
holds falling = true
holds rechecking = true
holds p = false

abbrev pub listed : Place → Bool
listed deciding = true
listed falling = true
listed sleeping = true
listed woken = true
listed rechecking = true
listed driving = true
listed trimming = true
listed unlinking = true
listed p = false

abbrev pub holds_list : Place → Bool
holds_list inserting = true
holds_list unlinking = true
holds_list handing = true
holds_list p = false

-- Places from which a thread may fall asleep without another test of the count, and asleep.
abbrev pub at_risk : Place → Bool
at_risk listing = true
at_risk inserting = true
at_risk deciding = true
at_risk falling = true
at_risk sleeping = true
at_risk p = false

abbrev pub rests : Place → Bool
rests falling = true
rests sleeping = true
rests p = false

-- Places behind a test that found the count 0.
abbrev pub is_down : Place → Bool
is_down trimming = true
is_down unlinking = true
is_down handing = true
is_down releasing = true
is_down gone = true
is_down p = false

abbrev pub is_handing : Place → Bool
is_handing handing = true
is_handing p = false

abbrev pub is_gone : Place → Bool
is_gone gone = true
is_gone p = false

abbrev pub is_pending : Last → Bool
is_pending pending = true
is_pending l = false

abbrev pub is_finished : Last → Bool
is_finished finished = true
is_finished l = false

-- The signaller has the lock; the signal is to come.
abbrev pub signals : Last → Bool
signals signalling = true
signals unlocking = true
signals l = false

abbrev pub is_due : Last → Bool
is_due locking = true
is_due signalling = true
is_due l = false

abbrev pub by_own : Owner → Bool
by_own own = true
by_own o = false

abbrev pub by_signaller : Owner → Bool
by_signaller signaller = true
by_signaller o = false

abbrev pub by_passer : Owner → Bool
by_passer passer = true
by_passer o = false

-- The duties go to `s` and the signal is to come; the passing thread has the lock of `s`.
abbrev pub passes : ℕ → Pass → Bool
passes s (passing h) = s == h
passes s (waking h) = s == h
passes s p = false

abbrev pub grabs : ℕ → Pass → Bool
grabs s (waking h) = s == h
grabs s (freeing h) = s == h
grabs s p = false

abbrev pub is_busy : Pass → Bool
is_busy idle = false
is_busy p = true

abbrev pub is_free : Option ℕ → Bool
is_free none = true
is_free (some t) = false
