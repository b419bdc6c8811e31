-- ===== src/Qthreads/Cond/Run.antt =====
-- The condition variable as a first-in first-out queue: sequences of operations, and the wait.
use libult.Base.{
  ℕ, ◌≡◌, ◌≢◌, refl, ◌∙◌, ap, ◌+◌, ◌≤◌, ◌<◌, Ptr, null, some, List, [], ◌∷◌, ◌++◌, arith,
  if◌then◌else◌, update, has, ◌∉◌, length, length-append,
}
use libult.Qthreads.Cond.{Cond, cond_signal, Op, wait, signal, broadcast, perform, perform_all}
use libult.Qthreads.Cond.Queue.{IsQueue, enqueue-IsQueue}
use libult.Qthreads.Cond.Wake.{cond_signal-IsQueue, cond_signal-nil, cond_broadcast-AllWoken}

-- The abstract condition variable: who waits, oldest first, and who has been woken.
pub record Fifo : Type 0 where
  pub queue : List Ptr
  pub woken : Ptr → ℕ

abbrev pub wake_oldest : List Ptr → Fifo → Fifo
wake_oldest [] s = s
wake_oldest (x ∷ xs) s = record { queue = xs; woken = update s.woken x 1 }

abbrev pub all_woken : List Ptr → (Ptr → ℕ) → Ptr → ℕ
all_woken xs woken q = if has q xs then 1 else woken q

abbrev pub fifo : Op → Fifo → Fifo
fifo (wait w) s = record { queue = s.queue ++ w ∷ []; woken = update s.woken w 0 }
fifo signal s = wake_oldest s.queue s
fifo broadcast s = record { queue = []; woken = all_woken s.queue s.woken }

abbrev pub fifo_all : List Op → Fifo → Fifo
fifo_all [] s = s
fifo_all (op ∷ ops) s = fifo_all ops (fifo op s)

-- A thread that begins to wait is not waiting already.
abbrev pub Allowed : Op → Fifo → Type 0
Allowed (wait w) s = (w ≢ null) × (w ∉ s.queue)
Allowed signal s = Unit
Allowed broadcast s = Unit

abbrev pub AllAllowed : List Op → Fifo → Type 0
AllAllowed [] s = Unit
AllAllowed (op ∷ ops) s = Allowed op s × AllAllowed ops (fifo op s)

-- The pointers represent the abstract state.
pub record Represents (c : Cond) (s : Fifo) : Type 0 where
  pub queue : IsQueue c s.queue
  pub woken : c.m_signaled ≡ s.woken

signal-Represents :
    (c : Cond) (xs : List Ptr) (f : Ptr → ℕ)
    → IsQueue c xs
    → c.m_signaled ≡ f
    → Represents (cond_signal c) (wake_oldest xs (record { queue = xs; woken = f }))
signal-Represents c [] f q e = rw (cond_signal-nil c q) (record { queue = q; woken = e })
signal-Represents c (x ∷ xs) f q e =
    let (q', e') = cond_signal-IsQueue x xs c q in
    record { queue = q'; woken = e' ∙ ap (λ g. update g x 1) e }

perform-Represents :
    (op : Op) (fuel : ℕ) (c : Cond) (s : Fifo)
    → Represents c s
    → Allowed op s
    → length s.queue < fuel
    → (c' : Cond) × (perform fuel op c ≡ some c') × Represents c' (fifo op s)
unfolding perform
perform-Represents (wait w) fuel c s r (ne, out) h =
    let (q', e') = enqueue-IsQueue w s.queue c r.queue ne out in
    (_, refl, record { queue = q'; woken = e' ∙ ap (λ g. update g w 0) r.woken })
perform-Represents signal fuel c s r a h =
    (_, refl, signal-Represents c s.queue s.woken r.queue r.woken)
perform-Represents broadcast fuel c s r a h =
    let (c', ran, (q, e)) = cond_broadcast-AllWoken s.queue c fuel r.queue h in
    (c', ran, record { queue = q; woken = e ∙ ap (all_woken s.queue) r.woken })

length-wake_oldest :
    (xs : List Ptr) (s : Fifo)
    → length s.queue ≤ length xs
    → length (wake_oldest xs s).queue ≤ length xs
length-wake_oldest [] s h = h
length-wake_oldest (x ∷ xs) s h = omega arith

length-fifo : (op : Op) (s : Fifo) → length (fifo op s).queue ≤ length s.queue + 1
length-fifo (wait w) s = omega (arith, length-append s.queue (w ∷ []))
length-fifo signal s = omega (arith, length-wake_oldest s.queue s)
length-fifo broadcast s = omega arith

-- Whatever sequence of waits, signals and broadcasts comes, the pointers do what a first-in
-- first-out queue of waiters does: a wait queues last, a signal wakes the oldest and a broadcast
-- all. No operation fails or runs on, where no thread waits twice at once and each broadcast has
-- more rounds than there can be waiters.
pub perform_all-Represents :
    (ops : List Op) (fuel : ℕ) (c : Cond) (s : Fifo)
    → Represents c s
    → AllAllowed ops s
    → length s.queue + length ops < fuel
    → (c' : Cond) × (perform_all fuel ops c ≡ some c') × Represents c' (fifo_all ops s)
unfolding perform_all
perform_all-Represents [] fuel c s r a h = (c, refl, r)
perform_all-Represents (op ∷ ops) fuel c s r (a, rest) h =
    let (c₁, ran₁, r₁) = perform-Represents op fuel c s r a (omega arith) in
    let (c₂, ran₂, r₂) =
      perform_all-Represents ops fuel c₁ (fifo op s) r₁ rest (omega (arith, length-fifo op s)) in
    (c₂, rw (ran₁, perform_all) ran₂, r₂)
