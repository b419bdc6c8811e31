-- ===== src/WaitSync/Protocol/Pointers.antt =====
-- src/impl/base/wait_sync.c: the pointers of the ring beside the list of the interleaved steps. The
-- structure of thread `s` has the address `s`, and no thread has the number of `NULL`.
mod Tests
use mathlib.Core.Path.{subst}
use libult.Base.{
  ℕ, Ptr, null, ◌≡◌, ◌≢◌, refl, sym, ap, ◌∙◌, Bool, true, false, List, [], ◌∷◌, ◌++◌, ◌==◌,
  if◌then◌else◌, if_true, if_false, Bool-cases, inl, inr, ==_iff, ==_refl, has, has-append, ◌∈◌,
  ◌∉◌, All, without, IsDistinct, arith,
}
use libult.WaitSync.State.{Mem, Event, mutex_lock, mutex_unlock, cond_signal}
use libult.WaitSync.Pending.{insert_pending, unlink, pass_duties}
use libult.WaitSync.Pending.Ring.{IsRing}
use libult.WaitSync.Pending.Insert.{insert_pending-IsRing, insert_pending_same}
use libult.WaitSync.Pending.Remove.{Trimmed, pass_duties-Trimmed, handover}
use libult.WaitSync.Protocol.{
  Place, Pass, is_head, heir, first, State, Move, wait, signal, complete, fail, spurious, wait_move,
  signal_move, report, report_failure, move, moves, all_init,
}
use libult.WaitSync.Protocol.Invariant.{IsGood}
use libult.WaitSync.Protocol.Progress.Steps.{mover}
use libult.WaitSync.Protocol.Safety.{move-IsGood, all_init-IsGood}

-- What a step of the waiting thread does to the pointers: the insertion, and the removal with the new
-- head. The calls of WAIT_SYNC_PASS_OWNERSHIP go to the trace.
unfoldable pub place_pointers : Place → Ptr → Mem → Mem
place_pointers Place.inserting s m = insert_pending s m
place_pointers Place.unlinking s m = pass_duties s (unlink s m)
place_pointers p s m = m

unfoldable pub move_pointers : Move → State → Mem → Mem
unfolding place_pointers
move_pointers (wait s b) σ m = place_pointers (σ.sync s).wait s m
move_pointers _ σ m = m

unfoldable pub moves_pointers : List Move → State → Mem → Mem
unfolding move_pointers
moves_pointers [] σ m = m
moves_pointers (mv ∷ ms) σ m = moves_pointers ms (move mv σ) (move_pointers mv σ m)

-- The calls that a passing comes to.
abbrev pub duties : Pass → List Event → List Event
duties (Pass.passing h) tr = mutex_unlock h ∷ cond_signal h ∷ mutex_lock h ∷ tr
duties p tr = tr

-- Those of a schedule: one passing for each removal, to the heir.
abbrev pub place_duties : Place → ℕ → List ℕ → List Event → List Event
place_duties Place.unlinking s list tr = duties (heir s list) tr
place_duties p s list tr = tr

abbrev pub move_duties : Move → State → List Event → List Event
move_duties (wait s b) σ tr = place_duties (σ.sync s).wait s σ.list tr
move_duties mv σ tr = tr

unfoldable pub moves_duties : List Move → State → List Event → List Event
moves_duties [] σ tr = tr
moves_duties (mv ∷ ms) σ tr = moves_duties ms (move mv σ) (move_duties mv σ tr)

-- A list around one of its items.
split :
    (s : Ptr) (l : List Ptr)
    → s ∈ l
    → (xs : List Ptr) × (ys : List Ptr) × (l ≡ xs ++ s ∷ ys) × (without s l ≡ xs ++ ys)
split s [] e = cc
split s (x ∷ l) e = elim (Bool-cases (s == x)) [
  | inl h ↦ ([], l, ap (λ v. v ∷ l) (sym ((==_iff s x).0 h)), if_true (s == x) l _ h)
  | inr h ↦
      let (xs, ys, whole, out) = split s l (ground arith) in
      (x ∷ xs, ys, ap (λ v. x ∷ v) whole, if_false (s == x) l _ h ∙ ap (λ v. x ∷ v) out)
]

-- The code signals the heir.
handover-heir :
    (s : Ptr) (xs ys : List Ptr) (tr : List Event)
    → IsDistinct (xs ++ s ∷ ys)
    → without s (xs ++ s ∷ ys) ≡ xs ++ ys
    → handover xs ys tr ≡ duties (heir s (xs ++ s ∷ ys)) tr
handover-heir s [] [] tr d e = rw (==_refl s) refl
handover-heir s [] (y ∷ ys) tr d e = rw (==_refl s) refl
handover-heir s (a ∷ xs) ys tr (out, d) e =
    let apart : (s == a) ≡ false = ground (arith, has-append a xs (s ∷ ys)) in
    sym (
      ap (λ v. duties v tr)
        (if_false (s == a) (first (without s (a ∷ xs ++ s ∷ ys))) Pass.idle apart))

-- The pointers of a removal.
trimmed-IsRing :
    (s : Ptr) (list : List Ptr) (m : Mem)
    → IsDistinct list
    → s ∈ list
    → IsRing m list
    → IsRing (pass_duties s (unlink s m)) (without s list)
      × ((pass_duties s (unlink s m)).trace ≡ duties (heir s list) m.trace)
trimmed-IsRing s list m d on ring =
    let (xs, ys, whole, out) = split s list on in
    let t = pass_duties-Trimmed s xs ys m (subst (IsRing m) whole ring) in
    (
      subst (IsRing (pass_duties s (unlink s m))) (sym out) t.ring,
      t.trace
          ∙ handover-heir s xs ys m.trace (subst IsDistinct whole d)
              (sym (ap (without s) whole) ∙ out)
          ∙ ap (λ v. duties (heir s v) m.trace) (sym whole),
    )

module _ {σ : State} (good : IsGood σ) (s : ℕ) (ne : s ≢ null) (m : Mem)
    (ring : IsRing m σ.list) where
  place-IsRing :
      (p : Place) (b : Bool)
      → (σ.sync s).wait ≡ p
      → IsRing (place_pointers p s m) (wait_move p b s σ).list
        × ((place_pointers p s m).trace ≡ place_duties p s σ.list m.trace)
  unfolding place_pointers wait_move
  place-IsRing Place.inserting b e =
      let i = good.each s in
      (
        insert_pending-IsRing s σ.list m ring ne (ground (arith, i.on_list)),
        (insert_pending_same s m).3,
      )
  place-IsRing Place.unlinking b e =
      let i = good.each s in
      trimmed-IsRing s σ.list m good.distinct (ground (arith, i.on_list)) ring
  place-IsRing p b e =
      let same : σ.list ≡ (wait_move p b s σ).list = ground arith in
      (subst (IsRing m) same ring, refl)

-- Any step.
move-IsRing :
    {σ : State} (mv : Move) (m : Mem)
    → IsGood σ
    → mover mv ≢ null
    → IsRing m σ.list
    → IsRing (move_pointers mv σ m) (move mv σ).list
      × ((move_pointers mv σ m).trace ≡ move_duties mv σ m.trace)
unfolding move move_pointers signal_move report report_failure
move-IsRing {σ} (wait s b) m good ne ring = place-IsRing good s ne m ring (σ.sync s).wait b refl
move-IsRing {σ} mv m good ne ring =
    let same : σ.list ≡ (move mv σ).list = ground arith in (subst (IsRing m) same ring, refl)

moves-on :
    (ms : List Move) {σ : State} (m : Mem)
    → IsGood σ
    → All (λ mv. mover mv ≢ null) ms
    → IsRing m σ.list
    → IsRing (moves_pointers ms σ m) (moves ms σ).list
      × ((moves_pointers ms σ m).trace ≡ moves_duties ms σ m.trace)
unfolding moves_pointers moves moves_duties
moves-on [] m good ne ring = (ring, refl)
moves-on (mv ∷ ms) {σ} m good (at, ne) ring =
    let step = move-IsRing mv m good at ring in
    let rest = moves-on ms {σ = move mv σ} (move_pointers mv σ m) (move-IsGood mv good) ne step.0 in
    (rest.0, rest.1 ∙ ap (moves_duties ms (move mv σ)) step.1)

-- Start with no structure pending and any counts, and let the threads' steps come in any order, where
-- no waiting thread's structure has the address NULL. Then the `next` and `prev` pointers and
-- `threads_base_wait_sync_list` always make the ring of the structures that have been inserted and
-- not yet removed, in the order of insertion, and the calls of WAIT_SYNC_PASS_OWNERSHIP go, one for
-- each removal of the head where others remain, to the structure that is the head from then on.
pub moves-IsRing :
    (counts : ℕ → ℕ) (ms : List Move) (m : Mem)
    → All (λ mv. mover mv ≢ null) ms
    → m.list ≡ null
    → IsRing (moves_pointers ms (all_init counts) m) (moves ms (all_init counts)).list
      × ((moves_pointers ms (all_init counts) m).trace ≡ moves_duties ms (all_init counts) m.trace)
unfolding all_init
moves-IsRing counts ms m ne empty =
    moves-on ms {σ = all_init counts} m (all_init-IsGood counts) ne empty
