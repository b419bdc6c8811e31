-- ===== src/Qthreads/Cond/Fair.antt =====
-- When a wait on the condition variable ends: exactly when its turn has come.
use mathlib.Core.List.{append_assoc}
use libult.Base.{
  ℕ, zero, suc, ◌≡◌, ◌≢◌, refl, ◌∙◌, ap, ◌+◌, ◌<◌, Ptr, null, Bool, true, false, some, List, [],
  ◌∷◌, ◌++◌, arith, if◌then◌else◌, update, has-append, ◌∉◌, length, length-append,
}
use libult.Qthreads.Cond.{
  Cond, enqueue, Op, wait, signal, broadcast, perform_all, wait_loop, cond_wait,
}
use libult.Qthreads.Cond.Queue.{IsQueue, enqueue-IsQueue}
use libult.Qthreads.Cond.Run.{
  Fifo, all_woken, fifo, fifo_all, AllAllowed, Represents, perform_all-Represents,
}

-- Do these operations wake a waiter with `k` others before it?
abbrev pub served : List Op → ℕ → Bool
served [] k = false
served (wait v ∷ ops) k = served ops k
served (broadcast ∷ ops) k = true
served (signal ∷ ops) zero = true
served (signal ∷ ops) (suc k) = served ops k

-- None of them is a wait of `w`.
abbrev pub Others : Ptr → List Op → Type 0
Others w [] = Unit
Others w (wait v ∷ ops) = (v ≢ w) × Others w ops
Others w (signal ∷ ops) = Others w ops
Others w (broadcast ∷ ops) = Others w ops

-- A thread that has been woken stays so until it waits again.
still_woken :
    (w : Ptr) (ops : List Op) (queue : List Ptr) (woken : Ptr → ℕ)
    → Others w ops
    → w ∉ queue
    → woken w ≡ 1
    → (fifo_all ops (record { queue = queue; woken = woken })).woken w ≡ 1
still_woken w [] queue woken o out e = e
still_woken w (wait v ∷ ops) queue woken (ne, o) out e =
    still_woken w ops (queue ++ v ∷ []) (update woken v 0) o
      (ground (arith, has-append w queue (v ∷ []))) (ground arith)
still_woken w (signal ∷ ops) [] woken o out e = still_woken w ops [] woken o out e
still_woken w (signal ∷ ops) (x ∷ xs) woken o out e =
    still_woken w ops xs (update woken x 1) o (ground arith) (ground arith)
still_woken w (broadcast ∷ ops) queue woken o out e =
    still_woken w ops [] (all_woken queue woken) o refl (ground arith)

woken-served :
    (w : Ptr) (ops : List Op) (xs ys : List Ptr) (woken : Ptr → ℕ)
    → Others w ops
    → w ∉ xs
    → w ∉ ys
    → woken w ≡ 0
    → (fifo_all ops (record { queue = xs ++ w ∷ ys; woken = woken })).woken w
      ≡ (if served ops (length xs) then 1 else 0)
woken-served w [] xs ys woken o ox oy e = e
woken-served w (wait v ∷ ops) xs ys woken (ne, o) ox oy e =
    ap (λ q. (fifo_all ops (record { queue = q; woken = update woken v 0 })).woken w)
      (append_assoc xs (w ∷ ys) (v ∷ []))
    ∙ woken-served w ops xs (ys ++ v ∷ []) (update woken v 0) o ox
        (ground (arith, has-append w ys (v ∷ []))) (ground arith)
woken-served w (signal ∷ ops) [] ys woken o ox oy e =
    still_woken w ops ys (update woken w 1) o oy (ground arith)
woken-served w (signal ∷ ops) (x ∷ xs) ys woken o ox oy e =
    woken-served w ops xs ys (update woken x 1) o (ground arith) oy (ground arith)
woken-served w (broadcast ∷ ops) xs ys woken o ox oy e =
    still_woken w ops [] (all_woken (xs ++ w ∷ ys) woken) o refl
      (ground (arith, has-append w xs (w ∷ ys)))

-- One look at the flag.
wait_loop_look :
    (w : Ptr) (ops : List Op) (rounds : List (List Op)) (fuel : ℕ) (c c' : Cond) (b : Bool)
    → perform_all fuel ops c ≡ some c'
    → c'.m_signaled w ≡ (if b then 1 else 0)
    → wait_loop fuel w (ops ∷ rounds) c
      ≡ (if b then some (c', rounds) else wait_loop fuel w rounds c')
unfolding wait_loop
wait_loop_look w ops rounds fuel c c' true ran e = rw (ran, wait_loop, e)
wait_loop_look w ops rounds fuel c c' false ran e = rw (ran, wait_loop, e)

-- A thread that starts to wait when `queue` waits already, and that finds at its first look that
-- the others have done `ops`: it returns then exactly if `ops` holds a broadcast or more signals
-- than there were waiters before it; otherwise it goes on waiting. So a waiter is woken in its turn,
-- no wake-up is lost and none is spurious.
pub cond_wait-served :
    (w : Ptr) (ops : List Op) (rounds : List (List Op)) (fuel : ℕ) (c : Cond) (s : Fifo)
    → Represents c s
    → w ≢ null
    → w ∉ s.queue
    → AllAllowed ops (fifo (wait w) s)
    → Others w ops
    → length s.queue + length ops + 1 < fuel
    → (c' : Cond) × (perform_all fuel ops (enqueue w c) ≡ some c')
      × (cond_wait fuel w (ops ∷ rounds) c
          ≡ (if served ops (length s.queue) then some (c', rounds) else wait_loop fuel w rounds c'))
unfolding cond_wait wait_loop
cond_wait-served w ops rounds fuel c s r ne out a o h =
    let (q₀, e₀) = enqueue-IsQueue w s.queue c r.queue ne out in
    let r₀ = start q₀ e₀ in
    let (c', ran, r') =
      perform_all-Represents ops fuel (enqueue w c) (fifo (wait w) s) r₀ a
        (omega (arith, length-append s.queue (w ∷ []))) in
    let turn = woken-served w ops s.queue [] (update s.woken w 0) o out refl (ground arith) in
    (
      c',
      ran,
      wait_loop_look w ops rounds fuel (enqueue w c) c' (served ops (length s.queue)) ran
          (ap (λ (f : Ptr → ℕ). f w) r'.woken ∙ turn),
    )
  where
    start :
        IsQueue (enqueue w c) (s.queue ++ w ∷ [])
        → (enqueue w c).m_signaled ≡ update c.m_signaled w 0
        → Represents (enqueue w c) (fifo (wait w) s)
    start q e = record { queue = q; woken = e ∙ ap (λ g. update g w 0) r.woken }
