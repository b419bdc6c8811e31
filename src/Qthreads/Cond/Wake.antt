-- ===== src/Qthreads/Cond/Wake.antt =====
-- What the signal and the broadcast do to the queue of waiters.
use mathlib.Core.Path.{fun_ext}
use libult.Base.{
  ℕ, zero, suc, ◌≡◌, refl, ◌∙◌, ◌<◌, Ptr, null, false, some, List, [], ◌∷◌, arith, ◌==◌,
  if◌then◌else◌, update, has, ◌∉◌, length, if_true,
}
use libult.Qthreads.Cond.{Cond, cond_signal, broadcast_loop, cond_broadcast}
use libult.Qthreads.Cond.Queue.{Line, IsQueue}

-- `cond_signal` with one waiter, and with more.
cond_signal_last :
    (x : Ptr) (c : Cond)
    → c.m_waiter_tail ≡ x
    → (x == null) ≡ false
    → c.m_prev x ≡ null
    → cond_signal c ≡ record {
      m_signaled = update c.m_signaled x 1;
      m_prev = c.m_prev;
      m_waiter_head = null;
      m_waiter_tail = null;
    }
unfolding cond_signal
cond_signal_last x c e f g = rw (e, f, g)

cond_signal_more :
    (x y : Ptr) (c : Cond)
    → c.m_waiter_tail ≡ x
    → (x == null) ≡ false
    → c.m_prev x ≡ y
    → (y == null) ≡ false
    → cond_signal c ≡ record {
      m_signaled = update c.m_signaled x 1;
      m_prev = c.m_prev;
      m_waiter_head = c.m_waiter_head;
      m_waiter_tail = y;
    }
unfolding cond_signal
cond_signal_more x y c e f g h = rw (e, f, g, h)

-- A signal wakes exactly the oldest waiter and takes it off the queue.
pub cond_signal-IsQueue :
    (x : Ptr) (xs : List Ptr) (c : Cond)
    → IsQueue c (x ∷ xs)
    → IsQueue (cond_signal c) xs × ((cond_signal c).m_signaled ≡ update c.m_signaled x 1)
cond_signal-IsQueue x [] c (t, h, l, d, nn) =
    rw (cond_signal_last x c t (ground arith) l) ((refl, refl), refl)
cond_signal-IsQueue x (y ∷ ys) c (t, h, (e, l), d, nn) =
    rw (cond_signal_more x y c t (ground arith) e (ground arith))
      ((refl, h, l, d.1, ground arith), refl)

-- With nobody waiting a signal does nothing.
pub cond_signal-nil : (c : Cond) → IsQueue c [] → cond_signal c ≡ c
unfolding cond_signal
cond_signal-nil c (t, h) = if_true (c.m_waiter_tail == null) _ _ (ground arith)

-- One round of the broadcast.
broadcast_loop_more :
    (fuel : ℕ) (x y : Ptr) (c : Cond)
    → c.m_waiter_tail ≡ x
    → (x == null) ≡ false
    → c.m_prev x ≡ y
    → broadcast_loop (suc fuel) c
      ≡ broadcast_loop fuel (record {
        m_signaled = update c.m_signaled x 1;
        m_prev = c.m_prev;
        m_waiter_head = c.m_waiter_head;
        m_waiter_tail = y;
      })
unfolding broadcast_loop
broadcast_loop_more fuel x y c e f g = rw (e, f, g)

broadcast_loop_done :
    (fuel : ℕ) (c : Cond)
    → c.m_waiter_tail ≡ null
    → broadcast_loop (suc fuel) c ≡ some (record c { m_waiter_head = null })
unfolding broadcast_loop
broadcast_loop_done fuel c e = if_true (c.m_waiter_tail == null) _ _ (ground arith)

-- Every waiter is woken, nobody else, and the queue is empty.
abbrev pub AllWoken : List Ptr → Cond → Cond → Type 0
AllWoken xs c c' = IsQueue c' [] × (c'.m_signaled ≡ (λ q. if has q xs then 1 else c.m_signaled q))

broadcast_loop-AllWoken :
    (fuel : ℕ) (x : Ptr) (xs : List Ptr) (c : Cond)
    → c.m_waiter_tail ≡ x
    → Line c.m_prev x xs
    → null ∉ x ∷ xs
    → length xs < fuel
    → (c' : Cond) × (broadcast_loop (suc fuel) c ≡ some c') × AllWoken (x ∷ xs) c c'
broadcast_loop-AllWoken zero x xs c t l nn h = absurd (omega arith)
broadcast_loop-AllWoken (suc fuel) x [] c t l nn h = (
  _,
  broadcast_loop_more (suc fuel) x null c t (ground arith) l ∙ broadcast_loop_done fuel _ refl,
  ((refl, refl), fun_ext λ q. ground arith),
)
broadcast_loop-AllWoken (suc fuel) x (y ∷ ys) c t (e, l) nn h =
    let next = record c { m_signaled = update c.m_signaled x 1; m_waiter_tail = y } in
    let (c', ran, (empty, woken)) =
      broadcast_loop-AllWoken fuel y ys next refl l (ground arith) (omega arith) in
    (
      c',
      broadcast_loop_more (suc fuel) x y c t (ground arith) e ∙ ran,
      (empty, rw woken (fun_ext λ q. ground arith)),
    )

-- A broadcast over the waiters `xs` ends, given one round more than there are waiters; it wakes all
-- of them and nobody else, and empties the queue.
pub cond_broadcast-AllWoken :
    (xs : List Ptr) (c : Cond) (fuel : ℕ)
    → IsQueue c xs
    → length xs < fuel
    → (c' : Cond) × (cond_broadcast fuel c ≡ some c') × AllWoken xs c c'
unfolding cond_broadcast
cond_broadcast-AllWoken xs c zero q h = absurd (omega arith)
cond_broadcast-AllWoken [] c (suc fuel) (t, e) h =
    (_, broadcast_loop_done fuel c t, ((t, refl), refl))
cond_broadcast-AllWoken (x ∷ xs) c (suc fuel) (t, e, l, d, nn) h =
    broadcast_loop-AllWoken fuel x xs c t l nn (omega arith)
