-- ===== src/WaitSync/Protocol/Safety.antt =====
-- src/wait_sync.h and src/impl/base/wait_sync.c: what holds in every state that a schedule reaches.
use libult.Base.{
  ℕ, ◌≡◌, refl, ◌∙◌, Bool, true, Option, none, some, List, [], ◌∷◌, has, IsDistinct, arith,
}
use libult.WaitSync.Protocol.{
  Place, is_head, owner, listed, holds_list, is_due, passes, State, wait_move, Move, wait, signal,
  complete, fail, spurious, move, moves, all_init,
}
use libult.WaitSync.Protocol.Invariant.{IsGood}
use libult.WaitSync.Protocol.Waiter.{local_move-IsGood}
use libult.WaitSync.Protocol.Duties.{
  listing-IsGood, trimming-IsGood, inserting-IsGood, unlinking-IsGood,
}
use libult.WaitSync.Protocol.Duties.Passing.{handing-IsGood}
use libult.WaitSync.Protocol.Signals.{
  signal_move-IsGood, report-IsGood, report_failure-IsGood, spurious-IsGood,
}

same_owner : (lock : Option ℕ) (s t : ℕ) → owner s lock ≡ true → owner t lock ≡ true → s ≡ t
same_owner none s t e f = cc
same_owner (some u) s t e f = ground arith

pub all_init-IsGood : (counts : ℕ → ℕ) → IsGood (all_init counts)
unfolding all_init
all_init-IsGood counts = record {
  each = λ q. ground arith;
  distinct = tt;
  heads = tt;
  handed = λ q e. refl;
  locked = refl;
}

wait_move-IsGood :
    {σ : State} (p : Place) (b : Bool) (s : ℕ)
    → IsGood σ
    → (σ.sync s).wait ≡ p
    → IsGood (wait_move p b s σ)
wait_move-IsGood Place.listing b s good e = listing-IsGood good s b e
wait_move-IsGood Place.trimming b s good e = trimming-IsGood good s b e
wait_move-IsGood Place.inserting b s good e = inserting-IsGood good s b e
wait_move-IsGood Place.unlinking b s good e = unlinking-IsGood good s b e
wait_move-IsGood Place.handing b s good e = handing-IsGood good s b e
wait_move-IsGood p b s good e = local_move-IsGood good s p b e refl

pub move-IsGood : {σ : State} (m : Move) → IsGood σ → IsGood (move m σ)
unfolding move
move-IsGood {σ} (wait s b) good = wait_move-IsGood (σ.sync s).wait b s good refl
move-IsGood {σ} (signal s) good = signal_move-IsGood good s (σ.sync s).last refl
move-IsGood (complete s u) good = report-IsGood good s u
move-IsGood (fail s status) good = report_failure-IsGood good s status
move-IsGood {σ} (spurious s) good = spurious-IsGood good s (σ.sync s).wait refl

pub moves-IsGood : (ms : List Move) {σ : State} → IsGood σ → IsGood (moves ms σ)
unfolding moves
moves-IsGood [] good = good
moves-IsGood (m ∷ ms) {σ} good = moves-IsGood ms {σ = move m σ} (move-IsGood m good)

-- From WAIT_SYNC_INIT with any counts on, in whatever order the threads' steps come.
pub reached-IsGood : (counts : ℕ → ℕ) (ms : List Move) → IsGood (moves ms (all_init counts))
reached-IsGood counts ms = moves-IsGood ms (all_init-IsGood counts)

-- No wake-up is lost: where a thread sleeps although its count is 0, the thread that made it 0 has
-- not signalled yet; and where a thread sleeps although it is the head of the list, the thread
-- that left the list before it has not signalled it yet, and is about to.
pub moves-no_lost_wakeup :
    (counts : ℕ → ℕ) (ms : List Move) (s : ℕ)
    → ((moves ms (all_init counts)).sync s).wait ≡ Place.sleeping
    → (((moves ms (all_init counts)).sync s).count ≡ 0
        → is_due ((moves ms (all_init counts)).sync s).last ≡ true)
      × (is_head s (moves ms (all_init counts)).list ≡ true
          → passes s (moves ms (all_init counts)).pass ≡ true)
moves-no_lost_wakeup counts ms s e =
    let i = (reached-IsGood counts ms).each s in (λ z. ground arith, λ h. ground arith)

-- The list holds, without repetition, exactly the structures whose threads are between the insertion
-- and the removal; and one thread at a time is at the places that stand between a lock and an
-- unlock of the list.
pub moves-listed :
    (counts : ℕ → ℕ) (ms : List Move) (s t : ℕ)
    → (has s (moves ms (all_init counts)).list ≡ listed ((moves ms (all_init counts)).sync s).wait)
      × IsDistinct (moves ms (all_init counts)).list
      × (holds_list ((moves ms (all_init counts)).sync s).wait ≡ true
          → holds_list ((moves ms (all_init counts)).sync t).wait ≡ true
          → s ≡ t)
moves-listed counts ms s t =
    let good = reached-IsGood counts ms in
    let i = good.each s in
    let j = good.each t in
    (i.on_list, good.distinct, λ e f. same_owner _ s t (i.list_owned ∙ e) (j.list_owned ∙ f))
