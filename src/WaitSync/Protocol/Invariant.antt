-- ===== src/WaitSync/Protocol/Invariant.antt =====
-- src/wait_sync.h and src/impl/base/wait_sync.c: what holds of every structure between two steps.
use libult.Base.{ℕ, ◌≡◌, true, false, not, ◌&&◌, Option, List, ◌==◌, has, IsDistinct}
use libult.WaitSync.Protocol.{
  Pass, is_head, owner, holds, listed, holds_list, at_risk, rests, is_down, is_handing, is_gone,
  is_pending, is_finished, signals, is_due, by_own, by_signaller, by_passer, passes, grabs, is_busy,
  is_free, Sync, State,
}

-- Of one structure, with the list, its lock and the state of a passing.
pub record IsSync (x : Sync) (s : ℕ) (list : List ℕ) (lock : Option ℕ) (pass : Pass) : Type 0 where
  pub counted : (x.count == 0) ≡ not (is_pending x.last)
  pub flagged : x.signaling ≡ not (is_finished x.last)
  -- The lock's owner is where its place says.
  pub owned : by_own x.lock ≡ holds x.wait
  pub signalled : by_signaller x.lock ≡ signals x.last
  pub passed : by_passer x.lock ≡ grabs s pass
  pub on_list : has s list ≡ listed x.wait
  pub list_owned : owner s lock ≡ holds_list x.wait
  -- What is destroyed is used by nobody.
  pub ended : x.destroyed ≡ is_gone x.wait
  pub quiet : (is_gone x.wait && not (is_finished x.last)) ≡ false
  -- No lost wake-up: where the thread may sleep although the count is 0, the signal is to come.
  pub due : (at_risk x.wait && not (is_pending x.last) && not (is_due x.last)) ≡ false
  pub down : (is_down x.wait && is_pending x.last) ≡ false
  -- No lost promotion: where the head of the list may sleep, the duties are being passed to it.
  pub promoted : (rests x.wait && is_head s list && not (passes s pass)) ≡ false

-- A passing goes to the head of the list, by the owner of the list's lock.
abbrev pub IsPass : Pass → List ℕ → Type 0
IsPass Pass.idle list = Unit
IsPass (Pass.passing h) list = is_head h list ≡ true
IsPass (Pass.waking h) list = is_head h list ≡ true
IsPass (Pass.freeing h) list = is_head h list ≡ true

pub record IsGood (σ : State) : Type 0 where
  pub each : (q : ℕ) → IsSync (σ.sync q) q σ.list σ.list_lock σ.pass
  pub distinct : IsDistinct σ.list
  pub heads : IsPass σ.pass σ.list
  pub handed :
      (q : ℕ)
      → owner q σ.list_lock ≡ true
      → (is_busy σ.pass && not (is_handing (σ.sync q).wait)) ≡ false
  pub locked : (is_busy σ.pass && is_free σ.list_lock) ≡ false
