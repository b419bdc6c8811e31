-- ===== src/WaitSync/Protocol.antt =====
-- src/wait_sync.h and src/impl/base/wait_sync.c with threads in use: any number of structures at once,
-- each with the thread that runs WAIT_SYNC_INIT, `ompi_sync_wait_mt` and WAIT_SYNC_RELEASE on it, and
-- with threads that report completions by `wait_sync_update`. A step is one access to what the
-- threads share, and a schedule gives the steps in any order. Structure and waiting thread have one
-- number. Successes add up to the count at most until a failure sets it to 0. One call makes the
-- count 0, and the thread of that call is the structure's signaller. An update that comes later, which
-- a failure before the last success makes possible, still uses the structure, but what it writes is
-- not followed: C takes the count below 0, where all tests ask for a positive one, and a second
-- failure writes its status and signals again.
mod Places
pub mod Invariant
mod Frame
mod Waiter
mod Duties
mod Signals
pub mod Safety
pub mod Sound
pub mod Progress
pub mod Failure
pub mod Measure
pub mod Outcome
pub mod Pointers
pub mod Crowd
mod Tests
unfoldable pub use Places.*
use libult.Base.{
  ℕ, Bool, true, false, not, ◌&&◌, ◌||◌, ◌-◌, Option, none, some, List, [], ◌∷◌, ◌++◌, ◌==◌, ltb,
  leb, if◌then◌else◌, update, without,
}

-- `ompi_wait_sync_t`, its lock and condition, and where its threads are. The lock's owner is a place,
-- not a thread: the waiting thread, the signaller, or the thread that passes its duties on.
pub record Sync : Type 0 where
  pub count : ℕ
  pub status : ℕ
  pub signaling : Bool
  pub destroyed : Bool  -- the lock and the condition, by WAIT_SYNC_RELEASE
  pub lock : Owner
  pub wait : Place
  pub last : Last

pub record State : Type 0 where
  pub sync : ℕ → Sync
  pub list : List ℕ  -- threads_base_wait_sync_list, from its head on
  pub list_lock : Option ℕ  -- wait_sync_lock, with its owner
  pub pass : Pass  -- what the owner does that passes the duties on
  pub fault : Bool  -- was a structure used after its destruction?

abbrev pub put : ℕ → Sync → State → State
put s x σ = record σ { sync = update σ.sync s x }

abbrev pub goes : Place → ℕ → State → State
goes p s σ = put s (record (σ.sync s) { wait = p }) σ

-- An access to a structure by another thread than its own.
abbrev pub touch : ℕ → State → State
touch s σ = record σ { fault = σ.fault || (σ.sync s).destroyed }

-- The insertion and the removal write to structures on the list.
abbrev pub any_destroyed : (ℕ → Sync) → List ℕ → Bool
any_destroyed f [] = false
any_destroyed f (s ∷ ss) = (f s).destroyed || any_destroyed f ss

abbrev pub touch_list : State → State
touch_list σ = record σ { fault = σ.fault || any_destroyed σ.sync σ.list }

-- The structure's lock is taken by its own thread, or tried again.
abbrev pub own_lock : Owner → Place → ℕ → State → State
own_lock free p s σ = put s (record (σ.sync s) { lock = own; wait = p }) σ
own_lock _ p s σ = σ

abbrev pub take_list : Option ℕ → Place → ℕ → State → State
take_list none p s σ = goes p s (record σ { list_lock = some s })
take_list (some t) p s σ = σ

-- WAIT_SYNC_PASS_OWNERSHIP, and the unlock of the list behind it.
abbrev pub pass_lock : Owner → ℕ → State → State
pass_lock free h σ =
    touch h (put h (record (σ.sync h) { lock = passer }) (record σ { pass = waking h }))
pass_lock _ h σ = σ

abbrev pub pass_move : Pass → ℕ → State → State
pass_move idle s σ = goes releasing s (record σ { list_lock = none })
pass_move (passing h) s σ = pass_lock (σ.sync h).lock h σ
pass_move (waking h) s σ =
    touch h
      (put h (record (σ.sync h) { wait = wakes (σ.sync h).wait }) (record σ { pass = freeing h }))
pass_move (freeing h) s σ =
    touch h (put h (record (σ.sync h) { lock = free }) (record σ { pass = idle }))

-- Whom the duties go to when `s` leaves the list.
abbrev pub heir : ℕ → List ℕ → Pass
heir s list = if is_head s list then first (without s list) else idle

-- WAIT_SYNC_RELEASE: a round of its loop, or the destruction.
abbrev pub release_move : (signaling : Bool) → ℕ → State → State
release_move signaling s σ =
    if signaling then σ else put s (record (σ.sync s) { destroyed = true; wait = gone }) σ

-- A step of the thread that waits for `s`, which is at the place given. `crowded` says whether
-- `num_thread_in_progress >= max_thread_in_progress` where that is read; any schedule of answers is
-- allowed here, and those that the count gives are among them.
unfoldable pub wait_move : Place → (crowded : Bool) → ℕ → State → State
wait_move start b s σ = goes (if (σ.sync s).count == 0 then releasing else entering) s σ
wait_move entering b s σ = own_lock (σ.sync s).lock testing s σ
wait_move testing b s σ =
    if (σ.sync s).count == 0
    then put s (record (σ.sync s) { lock = free; wait = releasing }) σ
    else goes listing s σ
wait_move listing b s σ = take_list σ.list_lock inserting s σ
wait_move inserting b s σ =
    goes deciding s (record (touch_list σ) { list = σ.list ++ s ∷ []; list_lock = none })
wait_move deciding b s σ =
    if not (is_head s σ.list) && b
    then goes falling s σ
    else put s (record (σ.sync s) { lock = free; wait = driving }) σ
wait_move falling b s σ = put s (record (σ.sync s) { lock = free; wait = sleeping }) σ
wait_move sleeping b s σ = σ
wait_move woken b s σ = own_lock (σ.sync s).lock rechecking s σ
wait_move rechecking b s σ =
    if (σ.sync s).count == 0
    then put s (record (σ.sync s) { lock = free; wait = trimming }) σ
    else goes deciding s σ
wait_move driving b s σ = if (σ.sync s).count == 0 then goes trimming s σ else σ
wait_move trimming b s σ = take_list σ.list_lock unlinking s σ
wait_move unlinking b s σ =
    goes handing s (record (touch_list σ) { list = without s σ.list; pass = heir s σ.list })
wait_move handing b s σ = pass_move σ.pass s σ
wait_move releasing b s σ = release_move (σ.sync s).signaling s σ
wait_move gone b s σ = σ

-- The signaller's lock.
abbrev pub signal_lock : Owner → ℕ → State → State
signal_lock free s σ = touch s (put s (record (σ.sync s) { lock = signaller; last = signalling }) σ)
signal_lock _ s σ = σ

-- A step of the signaller of `s`, which is in WAIT_SYNC_SIGNAL.
unfoldable pub signal_move : Last → ℕ → State → State
signal_move pending s σ = σ
signal_move locking s σ = signal_lock (σ.sync s).lock s σ
signal_move signalling s σ =
    touch s (put s (record (σ.sync s) { wait = wakes (σ.sync s).wait; last = unlocking }) σ)
signal_move unlocking s σ = touch s (put s (record (σ.sync s) { lock = free; last = clearing }) σ)
signal_move clearing s σ =
    touch s (put s (record (σ.sync s) { signaling = false; last = finished }) σ)
signal_move finished s σ = σ

-- `wait_sync_update` of `u` completions, up to the test of what the subtraction gives. Behind a failure
-- the count stays 0, for a negative one, so that a later success only counts as a use.
unfoldable pub report : ℕ → ℕ → State → State
report s u σ =
    if ltb 0 u && leb u (σ.sync s).count
    then touch s (
        put s
          (record (σ.sync s) {
            count = (σ.sync s).count - u;
            last = if (σ.sync s).count - u == 0 then locking else pending;
          })
          σ)
    else touch s σ

-- `wait_sync_update` with a failure, up to the signal. Once the count is 0 it only counts as a use: the
-- status that it writes and its second signal are not followed.
unfoldable pub report_failure : ℕ → ℕ → State → State
report_failure s status σ =
    if (σ.sync s).count == 0
    then touch s σ
    else touch s (put s (record (σ.sync s) { status = status; count = 0; last = locking }) σ)

pub data Move : Type 0 where
  wait : ℕ → Bool → Move
  signal : ℕ → Move
  complete : ℕ → ℕ → Move
  fail : ℕ → ℕ → Move
  spurious : ℕ → Move  -- a thread wakes up without a signal

unfoldable pub move : Move → State → State
unfolding wait_move signal_move report report_failure
move (wait s b) σ = wait_move (σ.sync s).wait b s σ
move (signal s) σ = signal_move (σ.sync s).last s σ
move (complete s u) σ = report s u σ
move (fail s status) σ = report_failure s status σ
move (spurious s) σ = goes (wakes (σ.sync s).wait) s σ

unfoldable pub moves : List Move → State → State
unfolding move
moves [] σ = σ
moves (m ∷ ms) σ = moves ms (move m σ)

-- WAIT_SYNC_INIT of every structure, with its count.
unfoldable pub all_init : (ℕ → ℕ) → State
all_init counts = record {
  sync = λ s. record {
    count = counts s;
    status = 0;
    signaling = not (0 == counts s);
    destroyed = false;
    lock = free;
    wait = start;
    last = if 0 == counts s then finished else pending;
  };
  list = [];
  list_lock = none;
  pass = idle;
  fault = false;
}
