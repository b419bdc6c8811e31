-- ===== src/WaitSync/Pending/Remove.antt =====
-- The trimming takes one structure off the ring, wherever it stands, and hands the duty of making
-- progress to the next one if it was the first.
use mathlib.Core.List.{append-nil}
use libult.Base.{
  ◌≡◌, ◌∙◌, ap, refl, Ptr, null, true, false, List, [], ◌∷◌, ◌++◌, arith, ◌==◌, update, ◌∈◌, ◌∉◌,
  IsDistinct, last, last-mem, Disjoint, IsDistinct-split, IsDistinct-append, has-append, Bool-cases,
  inl, inr,
}
use libult.WaitSync.State.{
  Mem, Event, mutex_lock, mutex_unlock, cond_signal, list_lock, list_unlock, pass_ownership,
  thread_lock, thread_unlock,
}
use libult.WaitSync.Pending.{unlink, pass_duties, trim_locked}
use libult.WaitSync.Pending.Chain.{
  Chain, Chain-append, Chain-split, Chain-prev_end, Chain-frame, Chain-relink,
}
use libult.WaitSync.Pending.Ring.{IsRing, IsRing-fields}

-- The memory after the two writes that lead past a node between `l` and `t`.
abbrev unlinked : (l t : Ptr) → Mem → Mem
unlinked l t m = record m { next = update m.next l t; prev = update m.prev t l }

unlink-eq :
    (sync l t : Ptr) (m : Mem) → m.prev sync ≡ l → m.next sync ≡ t → unlink sync m ≡ unlinked l t m
unfolding unlink
unlink-eq sync l t m p q = elim (Bool-cases (l == sync)) [
  | inl e ↦ rw (p, q, e)
  | inr e ↦ rw (p, q, e)
]

-- The three outcomes of passing the duties on.
module _ (sync : Ptr) (m : Mem) where
  pass_duties_other : (sync == m.list) ≡ false → pass_duties sync m ≡ m
  unfolding pass_duties
  pass_duties_other e = rw e

  pass_duties_alone :
      (sync == m.list) ≡ true
      → (sync == m.next sync) ≡ true
      → pass_duties sync m ≡ record m { list = null }
  unfolding pass_duties
  pass_duties_alone e f = rw (e, f)

  pass_duties_next :
      (t : Ptr)
      → (sync == m.list) ≡ true
      → m.next sync ≡ t
      → (sync == t) ≡ false
      → (t == null) ≡ false
      → pass_duties sync m
        ≡ record m { list = t; trace = mutex_unlock t ∷ cond_signal t ∷ mutex_lock t ∷ m.trace }
  unfolding pass_duties pass_ownership
  pass_duties_next t e f g h = rw (e, f, g, h)

-- Where the node at the end of one chain heads another, leading past it joins the two.
Chain-unlink :
    (n v : Ptr → Ptr) (p b s : Ptr) (xs ys : List Ptr)
    → Chain n v p xs s
    → Chain n v s ys b
    → IsDistinct (p ∷ xs)
    → IsDistinct ys
    → Disjoint (p ∷ xs) ys
    → b ∉ xs
    → b ∉ ys
    → Chain (update n (last p xs) (n s)) (update v (n s) (last p xs)) p (xs ++ ys) b
Chain-unlink n v p b s xs [] c (e, f) d d' apart bx by =
    rw (append-nil xs, e) (Chain-relink n v p s b xs c d bx)
Chain-unlink n v p b s xs (y ∷ ys) c (e, f, k) d d' apart bx by = rw e (
    Chain-append _ _ p b y xs ys
      (Chain-relink n v p s y xs c d (ground (arith, not_mem_of_apart y)))
      (Chain-frame n v _ _ y b ys k
        (λ q h. ground (arith, last-mem p xs, apart (last p xs), apart q)) (λ q h. ground arith)))
  where
    not_mem_of_apart : (q : Ptr) → q ∈ y ∷ ys → q ∉ xs
    not_mem_of_apart q h = ground (arith, apart q)

-- What the trimming reports to the backend about its neighbour: the next structure is signalled,
-- under its lock, if the one that leaves was the first.
abbrev pub handover : (before after : List Ptr) → List Event → List Event
handover [] [] tr = tr
handover [] (t ∷ _) tr = mutex_unlock t ∷ cond_signal t ∷ mutex_lock t ∷ tr
handover (_ ∷ _) after tr = tr

-- The state after the trimming.
pub record Trimmed (m m' : Mem) (xs ys : List Ptr) : Type 0 where
  pub ring : IsRing m' (xs ++ ys)
  pub trace : m'.trace ≡ handover xs ys m.trace
  pub count : m'.count ≡ m.count
  pub status : m'.status ≡ m.status
  pub signaling : m'.signaling ≡ m.signaling
  pub uses_threads : m'.uses_threads ≡ m.uses_threads

-- Taking one out keeps the others distinct, and none of them `NULL`.
IsDistinct-out :
    (xs : List Ptr) (s : Ptr) (ys : List Ptr) → IsDistinct (xs ++ s ∷ ys) → IsDistinct (xs ++ ys)
IsDistinct-out xs s ys d =
    let (l, r, apart) = IsDistinct-split xs (s ∷ ys) d in
    IsDistinct-append xs ys l r.1 (λ q h. ground (arith, apart q h))

not_mem_out : (q : Ptr) (xs : List Ptr) (s : Ptr) (ys : List Ptr) → q ∉ xs ++ s ∷ ys → q ∉ xs ++ ys
not_mem_out q xs s ys h = ground (arith, has-append q xs (s ∷ ys), has-append q xs ys)

-- A structure behind the first one.
Trimmed-later :
    (s a : Ptr) (ws bs : List Ptr) (m : Mem)
    → IsRing m (a ∷ ws ++ s ∷ bs)
    → Trimmed m (pass_duties s (unlink s m)) (a ∷ ws) bs
Trimmed-later s a ws bs m (e, c, d, nn) =
    let (c₁, c₂) = Chain-split m.next m.prev a a s ws bs c in
    let (d₁, d₂, apart) = IsDistinct-split (a ∷ ws) (s ∷ bs) d in
    let chain =
      Chain-unlink m.next m.prev a a s ws bs c₁ c₂ d₁ d₂.1 (λ q h. ground (arith, apart q h)) d₁.0
        (ground (arith, apart a)) in
    let after = unlinked (last a ws) (m.next s) m in
    rw
      (
        unlink-eq s (last a ws) (m.next s) m (Chain-prev_end m.next m.prev a s ws c₁) refl,
        pass_duties_other s after (ground (arith, apart a)),
      )
      (record {
        ring = (e, chain, IsDistinct-out (a ∷ ws) s bs d, not_mem_out null (a ∷ ws) s bs nn);
        trace = refl;
        count = refl;
        status = refl;
        signaling = refl;
        uses_threads = refl;
      })

-- The first one, alone or with others behind it.
Trimmed-first :
    (s : Ptr) (bs : List Ptr) (m : Mem)
    → IsRing m (s ∷ bs)
    → Trimmed m (pass_duties s (unlink s m)) [] bs
Trimmed-first s [] m (e, (n, v), d, nn) =
    rw (unlink-eq s s s m v n, pass_duties_alone s (unlinked s s m) (ground arith) (ground arith))
      (record {
        ring = refl;
        trace = refl;
        count = refl;
        status = refl;
        signaling = refl;
        uses_threads = refl;
      })
Trimmed-first s (x ∷ xs) m (e, (n, v, c), d, nn) =
    rw
      (
        unlink-eq s (last x xs) x m (Chain-prev_end m.next m.prev x s xs c) n,
        pass_duties_next s (unlinked (last x xs) x m) x (ground arith) (ground arith) (ground arith)
            (ground arith),
      )
      (record {
        ring = (refl, Chain-relink m.next m.prev x s x xs c d.1 d.1.0, d.1, ground arith);
        trace = refl;
        count = refl;
        status = refl;
        signaling = refl;
        uses_threads = refl;
      })

pub pass_duties-Trimmed :
    (s : Ptr) (xs ys : List Ptr) (m : Mem)
    → IsRing m (xs ++ s ∷ ys)
    → Trimmed m (pass_duties s (unlink s m)) xs ys
pass_duties-Trimmed s [] ys m r = Trimmed-first s ys m r
pass_duties-Trimmed s (a ∷ xs) ys m r = Trimmed-later s a xs ys m r

thread_lock-trace : (m : Mem) → m.uses_threads ≡ true → (thread_lock m).trace ≡ list_lock ∷ m.trace
unfolding thread_lock
thread_lock-trace m e = rw e

thread_unlock-trace :
    (m : Mem) → m.uses_threads ≡ true → (thread_unlock m).trace ≡ list_unlock ∷ m.trace
unfolding thread_unlock
thread_unlock-trace m e = rw e

-- When the wait for a structure is over, `ompi_sync_wait_mt` takes exactly that one off the ring,
-- wherever it stands, and keeps the order of the others. If it was the first and others remain,
-- the next one is signalled under its own lock; otherwise nobody is. All of it happens between a
-- lock and an unlock of `wait_sync_lock` in threaded mode, and no count or state changes.
pub trim_locked-IsRing :
    (s : Ptr) (xs ys : List Ptr) (m : Mem)
    → IsRing m (xs ++ s ∷ ys)
    → m.uses_threads ≡ true
    → IsRing (trim_locked s m) (xs ++ ys)
      × ((trim_locked s m).trace ≡ list_unlock ∷ handover xs ys (list_lock ∷ m.trace))
      × ((trim_locked s m).count ≡ m.count)
      × ((trim_locked s m).status ≡ m.status)
      × ((trim_locked s m).signaling ≡ m.signaling)
unfolding trim_locked thread_lock thread_unlock
trim_locked-IsRing s xs ys m r mt =
    let locked = thread_lock m in
    let t =
      pass_duties-Trimmed s xs ys locked (IsRing-fields m locked (xs ++ s ∷ ys) refl refl refl r) in
    (
      IsRing-fields (pass_duties s (unlink s locked)) (trim_locked s m) (xs ++ ys) refl refl refl
          t.ring,
      thread_unlock-trace (pass_duties s (unlink s locked)) (t.uses_threads ∙ mt)
          ∙ ap (λ tr. list_unlock ∷ tr) (t.trace ∙ ap (handover xs ys) (thread_lock-trace m mt)),
      t.count,
      t.status,
      t.signaling,
    )
