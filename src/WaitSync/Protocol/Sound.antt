-- ===== src/WaitSync/Protocol/Sound.antt =====
-- src/wait_sync.h and src/impl/base/wait_sync.c: which steps use a structure that is still there.
use libult.Base.{ℕ, ◌≡◌, ◌≢◌, refl, ◌≤◌, Bool, true, false, List, [], ◌∷◌, arith}
use libult.WaitSync.Protocol.{
  Place, Last, Owner, Pass, is_head, State, pass_lock, pass_move, wait_move, signal_move, report,
  report_failure, Move, wait, signal, complete, fail, spurious, move, moves, all_init,
}
use libult.WaitSync.Protocol.Invariant.{IsPass, IsGood}
use libult.WaitSync.Protocol.Frame.{listed-live, list-live, is_head-has}
use libult.WaitSync.Protocol.Signals.{unfinished-live}
use libult.WaitSync.Protocol.Safety.{move-IsGood, all_init-IsGood}

-- An update that comes while completions of its structure are missing, and a success that reports no
-- more than are. Of the other steps nothing is asked.
abbrev pub IsTimely : Move → State → Type 0
IsTimely (complete s u) σ = ((σ.sync s).count ≢ 0) × (u ≤ (σ.sync s).count)
IsTimely (fail s status) σ = (σ.sync s).count ≢ 0
IsTimely (wait s b) σ = Unit
IsTimely (signal s) σ = Unit
IsTimely (spurious s) σ = Unit

unfoldable pub AllTimely : List Move → State → Type 0
AllTimely [] σ = Unit
AllTimely (m ∷ ms) σ = IsTimely m σ × AllTimely ms (move m σ)

module _ {σ : State} (good : IsGood σ) (sound : σ.fault ≡ false) where
  -- The structure that gets the duties is on the list.
  head-live : (h : ℕ) → is_head h σ.list ≡ true → (σ.sync h).destroyed ≡ false
  head-live h e = listed-live h good (is_head-has h σ.list e)

  pass_lock_sound : (o : Owner) (h : ℕ) → is_head h σ.list ≡ true → (pass_lock o h σ).fault ≡ false
  pass_lock_sound Owner.free h e = let l = head-live h e in ground arith
  pass_lock_sound o h e = sound

  pass_move_sound : (p : Pass) (s : ℕ) → IsPass p σ.list → (pass_move p s σ).fault ≡ false
  pass_move_sound Pass.idle s e = sound
  pass_move_sound (Pass.passing h) s e = pass_lock_sound (σ.sync h).lock h e
  pass_move_sound (Pass.waking h) s e = let l = head-live h e in ground arith
  pass_move_sound (Pass.freeing h) s e = let l = head-live h e in ground arith

  wait_move_sound : (p : Place) (b : Bool) (s : ℕ) → (wait_move p b s σ).fault ≡ false
  unfolding wait_move
  wait_move_sound Place.inserting b s = list-live good sound
  wait_move_sound Place.unlinking b s = list-live good sound
  wait_move_sound Place.handing b s = pass_move_sound σ.pass s good.heads
  wait_move_sound p b s = ground arith

  signal_move_sound : (l : Last) (s : ℕ) → (σ.sync s).last ≡ l → (signal_move l s σ).fault ≡ false
  unfolding signal_move
  signal_move_sound Last.pending s e = sound
  signal_move_sound Last.finished s e = sound
  signal_move_sound l s e = let live = unfinished-live good s (ground arith) in ground arith

  -- While completions are missing, the structure is there.
  missing-live : (s : ℕ) → (σ.sync s).count ≢ 0 → (σ.sync s).destroyed ≡ false
  missing-live s ne = let i = good.each s in unfinished-live good s (ground arith)

  report_sound : (s u : ℕ) → (σ.sync s).count ≢ 0 → (report s u σ).fault ≡ false
  unfolding report
  report_sound s u ne = let live = missing-live s ne in ground arith

  report_failure_sound :
      (s status : ℕ) → (σ.sync s).count ≢ 0 → (report_failure s status σ).fault ≡ false
  unfolding report_failure
  report_failure_sound s status ne = let live = missing-live s ne in ground arith

  move_sound : (m : Move) → IsTimely m σ → (move m σ).fault ≡ false
  unfolding move
  move_sound (wait s b) t = wait_move_sound (σ.sync s).wait b s
  move_sound (signal s) t = signal_move_sound (σ.sync s).last s refl
  move_sound (complete s u) t = report_sound s u t.0
  move_sound (fail s status) t = report_failure_sound s status t
  move_sound (spurious s) t = sound

pub moves_sound :
    (ms : List Move) {σ : State}
    → IsGood σ
    → σ.fault ≡ false
    → AllTimely ms σ
    → (moves ms σ).fault ≡ false
unfolding moves AllTimely
moves_sound [] good sound all = sound
moves_sound (m ∷ ms) {σ} good sound (t, all) =
    moves_sound ms {σ = move m σ} (move-IsGood m good) (move_sound good sound m t) all

-- Whatever the counts and the schedule, no thread uses a structure after WAIT_SYNC_RELEASE has
-- destroyed it: not the thread that reports the last completion and signals it, not one that passes
-- its duties on to it, and not one that writes to its neighbours on the list. It supposes that each
-- update of a structure comes while completions of it are missing, and that a success reports no
-- more than are.
pub moves-no_fault :
    (counts : ℕ → ℕ) (ms : List Move)
    → AllTimely ms (all_init counts)
    → (moves ms (all_init counts)).fault ≡ false
unfolding all_init
moves-no_fault counts ms all =
    moves_sound ms {σ = all_init counts} (all_init-IsGood counts) refl all
