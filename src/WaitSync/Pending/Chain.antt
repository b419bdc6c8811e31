-- ===== src/WaitSync/Pending/Chain.antt =====
-- Doubly linked chains through two maps, and what becomes of them when a link is moved.
use libult.Base.{◌≡◌, Ptr, List, [], ◌∷◌, ◌++◌, arith, update, ◌∈◌, ◌∉◌, IsDistinct, last, last-mem}

-- From `p` the links `next` lead through `xs` to `b`, and the links `prev` lead back.
abbrev pub Chain : (next prev : Ptr → Ptr) → Ptr → List Ptr → Ptr → Type 0
Chain n v p [] b = (n p ≡ b) × (v b ≡ p)
Chain n v p (x ∷ xs) b = (n p ≡ x) × (v x ≡ p) × Chain n v x xs b

module _ (n v : Ptr → Ptr) where
  pub Chain-append :
      (p b s : Ptr) (xs ys : List Ptr)
      → Chain n v p xs s
      → Chain n v s ys b
      → Chain n v p (xs ++ s ∷ ys) b
  Chain-append p b s [] ys (e, f) d = (e, f, d)
  Chain-append p b s (x ∷ xs) ys (e, f, c) d = (e, f, Chain-append x b s xs ys c d)

  pub Chain-split :
      (p b s : Ptr) (xs ys : List Ptr)
      → Chain n v p (xs ++ s ∷ ys) b
      → Chain n v p xs s × Chain n v s ys b
  Chain-split p b s [] ys (e, f, c) = ((e, f), c)
  Chain-split p b s (x ∷ xs) ys (e, f, c) = let (l, r) = Chain-split x b s xs ys c in ((e, f, l), r)

  -- The end leads back to the last address before it.
  pub Chain-prev_end : (p b : Ptr) (xs : List Ptr) → Chain n v p xs b → v b ≡ last p xs
  Chain-prev_end p b [] c = c.1
  Chain-prev_end p b (x ∷ xs) c = Chain-prev_end x b xs c.2

  -- A chain reads `next` at its nodes and `prev` behind them.
  pub Chain-frame :
      (n' v' : Ptr → Ptr) (p b : Ptr) (xs : List Ptr)
      → Chain n v p xs b
      → ((q : Ptr) → q ∈ p ∷ xs → n' q ≡ n q)
      → ((q : Ptr) → q ∈ b ∷ xs → v' q ≡ v q)
      → Chain n' v' p xs b
  Chain-frame n' v' p b [] (e, f) hn hv = (ground (arith, hn p), ground (arith, hv b))
  Chain-frame n' v' p b (x ∷ xs) (e, f, c) hn hv = (
    ground (arith, hn p),
    ground (arith, hv x),
    Chain-frame n' v' x b xs c (λ q h. hn q (ground arith)) (λ q h. hv q (ground arith)),
  )

  -- Lead the last link to `t` instead.
  pub Chain-relink :
      (p b t : Ptr) (xs : List Ptr)
      → Chain n v p xs b
      → IsDistinct (p ∷ xs)
      → t ∉ xs
      → Chain (update n (last p xs) t) (update v t (last p xs)) p xs t
  Chain-relink p b t [] c d out = (ground arith, ground arith)
  Chain-relink p b t (x ∷ xs) (e, f, c) d out =
      (ground (arith, last-mem x xs), ground arith, Chain-relink x b t xs c d.1 (ground arith))
