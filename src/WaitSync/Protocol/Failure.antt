-- ===== src/WaitSync/Protocol/Failure.antt =====
-- src/wait_sync.h and src/impl/base/wait_sync.c: a global wake-up with a failure among the steps of
-- the threads. It is taken as one step, where it finds the lock of the list and those of the
-- structures free; its calls of `wait_sync_update` clear each count and signal as the last completion
-- does, with `signaling` cleared at the end.
mod Tests
use libult.Base.{ℕ, ◌≡◌, true, false, ◌||◌, none, List, [], ◌∷◌, if◌then◌else◌, has, ◌∈◌, arith}
use libult.WaitSync.Protocol.{
  Place, Last, Owner, Pass, wakes, is_pending, is_finished, Sync, State, Move, wait, signal, moves,
}

-- `wait_sync_update` with a failure.
abbrev pub failed : ℕ → Sync → Sync
failed status x = record x {
  status = status;
  count = 0;
  signaling = false;
  wait = wakes x.wait;
  last = if is_pending x.last then Last.finished else x.last;
}

-- `wait_sync_global_wakeup`
unfoldable pub global_wakeup : ℕ → State → State
global_wakeup status σ = record σ {
  sync = λ q. if has q σ.list then failed status (σ.sync q) else σ.sync q;
}

-- The locks are free, and no thread that made the count of a listed structure 0 is still in
-- WAIT_SYNC_SIGNAL.
pub record IsCalm (σ : State) : Type 0 where
  pub list_free : σ.list_lock ≡ none
  pub lock_free : (q : ℕ) → q ∈ σ.list → (σ.sync q).lock ≡ Owner.free
  pub no_signaller :
      (q : ℕ) → q ∈ σ.list → (is_pending (σ.sync q).last || is_finished (σ.sync q).last) ≡ true

-- The steps of the thread that waits for `s`, from the progress loop to the release, and then one of
-- the signaller.
abbrev pub release_first : ℕ → List Move
release_first s =
    wait s true ∷ wait s true ∷ wait s true ∷ wait s true ∷ wait s true ∷ signal s ∷ []

-- A global wake-up that comes while a thread is in WAIT_SYNC_SIGNAL can lead to the use of a structure
-- after its destruction: where the thread that made the count 0 is about to lock, and the thread that
-- waits, alone on the list, is in the progress loop, a global wake-up with a failure clears
-- `signaling`, so that the structure can be released before the lock is taken.
pub global_wakeup_fault :
    (σ : State) (status s : ℕ)
    → σ.list ≡ s ∷ []
    → σ.list_lock ≡ none
    → σ.pass ≡ Pass.idle
    → (σ.sync s).wait ≡ Place.driving
    → (σ.sync s).last ≡ Last.locking
    → (σ.sync s).lock ≡ Owner.free
    → (moves (release_first s) (global_wakeup status σ)).fault ≡ true
unfolding global_wakeup moves
global_wakeup_fault σ status s l ll p w la lo = ground arith
