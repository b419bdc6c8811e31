-- ===== src/Qthreads/Cond/Queue.antt =====
-- The queue of waiters: each operation does to the pointers what its abstract counterpart does to a
-- list, oldest waiter first.
use libult.Base.{
  ◌≡◌, ◌≢◌, refl, sym, Ptr, null, true, false, List, [], ◌∷◌, ◌++◌, arith, ◌==◌, update, ◌∈◌, ◌∉◌,
  IsDistinct, IsDistinct-snoc, last, last-mem, has-append,
}
use libult.Qthreads.Cond.{Cond, enqueue}

-- From `p` the links lead through `xs` and end at the newest waiter.
abbrev pub Line : (prev : Ptr → Ptr) → Ptr → List Ptr → Type 0
Line v p [] = v p ≡ null
Line v p (x ∷ xs) = (v p ≡ x) × Line v x xs

-- The waiters are `xs`, oldest first: the tail is the oldest, the head the newest.
abbrev pub IsQueue : Cond → List Ptr → Type 0
IsQueue c [] = (c.m_waiter_tail ≡ null) × (c.m_waiter_head ≡ null)
IsQueue c (x ∷ xs) =
    (c.m_waiter_tail ≡ x)
    × (c.m_waiter_head ≡ last x xs)
    × Line c.m_prev x xs
    × IsDistinct (x ∷ xs)
    × (null ∉ x ∷ xs)

Line-frame :
    (v v' : Ptr → Ptr) (p : Ptr) (xs : List Ptr)
    → Line v p xs
    → ((q : Ptr) → q ∈ p ∷ xs → v' q ≡ v q)
    → Line v' p xs
Line-frame v v' p [] e h = ground (arith, h p)
Line-frame v v' p (x ∷ xs) (e, l) h =
    (ground (arith, h p), Line-frame v v' x xs l (λ q m. h q (ground arith)))

-- A new waiter behind the last one.
Line-snoc :
    (v : Ptr → Ptr) (p w : Ptr) (xs : List Ptr)
    → Line v p xs
    → IsDistinct (p ∷ xs)
    → v w ≡ null
    → w ∉ p ∷ xs
    → Line (update v (last p xs) w) p (xs ++ w ∷ [])
Line-snoc v p w [] l d e out = (ground arith, ground arith)
Line-snoc v p w (x ∷ xs) (f, l) d e out =
    (ground (arith, last-mem x xs), Line-snoc v x w xs l d.1 e (ground arith))

last_snoc : (p w : Ptr) (xs : List Ptr) → last p (xs ++ w ∷ []) ≡ w
last_snoc p w [] = refl
last_snoc p w (x ∷ xs) = last_snoc x w xs

last_ne_null : (p : Ptr) (xs : List Ptr) → null ∉ p ∷ xs → (last p xs == null) ≡ false
last_ne_null p xs h = ground (arith, last-mem p xs)

-- `enqueue` with and without waiters there.
enqueue_first :
    (w : Ptr) (c : Cond)
    → (c.m_waiter_head == null) ≡ true
    → enqueue w c ≡ record {
      m_signaled = update c.m_signaled w 0;
      m_prev = update c.m_prev w null;
      m_waiter_head = w;
      m_waiter_tail = w;
    }
unfolding enqueue
enqueue_first w c e = rw e

enqueue_next :
    (w h : Ptr) (c : Cond)
    → c.m_waiter_head ≡ h
    → (h == null) ≡ false
    → enqueue w c ≡ record {
      m_signaled = update c.m_signaled w 0;
      m_prev = update (update c.m_prev w null) h w;
      m_waiter_head = w;
      m_waiter_tail = c.m_waiter_tail;
    }
unfolding enqueue
enqueue_next w h c e f = rw (e, f)

-- A waiter that comes is queued last and not yet signalled; the flags of the others stay.
pub enqueue-IsQueue :
    (w : Ptr) (xs : List Ptr) (c : Cond)
    → IsQueue c xs
    → w ≢ null
    → w ∉ xs
    → IsQueue (enqueue w c) (xs ++ w ∷ []) × ((enqueue w c).m_signaled ≡ update c.m_signaled w 0)
enqueue-IsQueue w [] c (t, h) ne out =
    rw (enqueue_first w c (ground arith))
      ((refl, refl, ground arith, (refl, tt), ground arith), refl)
enqueue-IsQueue w (x ∷ xs) c (t, h, l, d, nn) ne out =
    let before = Line-frame c.m_prev (update c.m_prev w null) x xs l (λ q m. ground arith) in
    rw (enqueue_next w (last x xs) c h (last_ne_null x xs nn)) (
      (
        t,
        sym (last_snoc x w xs),
        Line-snoc (update c.m_prev w null) x w xs before d (ground arith) out,
        IsDistinct-snoc w (x ∷ xs) d out,
        rw (has-append null (x ∷ xs) (w ∷ [])) (ground arith),
      ),
      refl,
    )
