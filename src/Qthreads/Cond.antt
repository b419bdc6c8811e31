-- ===== src/Qthreads/Cond.antt =====
-- src/impl/qthreads/threads_qthreads_mutex.h: the condition variable, which this backend builds
-- itself from a spinlock and a queue of waiters. Each operation holds `m_lock` from its first access
-- to its last, so it is one step. A waiter is a structure on its thread's stack, at address `w`.
pub mod Queue
pub mod Wake
pub mod Run
pub mod Fair
mod Tests
use libult.Base.{
  ℕ, zero, suc, Ptr, null, Option, none, some, List, [], ◌∷◌, ◌==◌, if◌then◌else◌, update,
}

-- `thread_internal_cond_t`, and the fields of all waiters.
pub record Cond : Type 0 where
  pub m_signaled : Ptr → ℕ
  pub m_prev : Ptr → Ptr
  pub m_waiter_head : Ptr
  pub m_waiter_tail : Ptr

-- `thread_internal_cond_init`
unfoldable pub cond_init : Cond → Cond
cond_init c = record c { m_waiter_head = null; m_waiter_tail = null }

-- The first half of `thread_internal_cond_wait`, up to the unlock of `m_lock`.
unfoldable pub enqueue : Ptr → Cond → Cond
enqueue w c =
    let c = record c { m_signaled = update c.m_signaled w 0; m_prev = update c.m_prev w null } in
    let c =
      (if c.m_waiter_head == null
        then record c { m_waiter_tail = w }
        else record c { m_prev = update c.m_prev c.m_waiter_head w }) in
    record c { m_waiter_head = w }

-- `thread_internal_cond_signal`
unfoldable pub cond_signal : Cond → Cond
cond_signal c =
    if c.m_waiter_tail == null
    then c
    else (let cur = c.m_waiter_tail in
        let c = record c { m_waiter_tail = c.m_prev cur } in
        let c = record c { m_signaled = update c.m_signaled cur 1 } in
        if c.m_waiter_tail == null then record c { m_waiter_head = null } else c)

broadcast_loop : ℕ → Cond → Option Cond
broadcast_loop zero c = none
broadcast_loop (suc fuel) c =
    let cur = c.m_waiter_tail in
    let rest =
      broadcast_loop fuel
        (record c { m_waiter_tail = c.m_prev cur; m_signaled = update c.m_signaled cur 1 }) in
    if c.m_waiter_tail == null then some (record c { m_waiter_head = null }) else rest

-- `thread_internal_cond_broadcast`; `none` means that the fuel ran out.
unfoldable pub cond_broadcast : ℕ → Cond → Option Cond
unfolding broadcast_loop
cond_broadcast fuel c = broadcast_loop fuel c

-- What a thread can do to the condition variable.
pub data Op : Type 0 where
  wait : Ptr → Op
  signal : Op
  broadcast : Op

unfoldable pub perform : ℕ → Op → Cond → Option Cond
unfolding cond_broadcast
perform fuel (wait w) c = some (enqueue w c)
perform fuel signal c = some (cond_signal c)
perform fuel broadcast c = cond_broadcast fuel c

unfoldable pub perform_all : ℕ → List Op → Cond → Option Cond
perform_all fuel [] c = some c
perform_all fuel (op ∷ ops) c = elim (perform fuel op c) [
  | none ↦ none
  | some c' ↦ perform_all fuel ops c'
]

-- The second half of `thread_internal_cond_wait`. In each round the waiter gives the mutex up and
-- takes it again; `rounds` holds what the other threads do to the condition variable meanwhile,
-- round by round. Returned are the state in which the wait ends and the rounds left; `none` means
-- that it has not ended within the rounds, or that a broadcast ran out of fuel.
unfoldable pub wait_loop : ℕ → Ptr → List (List Op) → Cond → Option (Cond × List (List Op))
wait_loop fuel w [] c = none
wait_loop fuel w (ops ∷ rounds) c = elim (perform_all fuel ops c) [
  | none ↦ none
  | some c' ↦
      (let rest = wait_loop fuel w rounds c' in
        if 1 == c'.m_signaled w then some (c', rounds) else rest)
]

-- `thread_internal_cond_wait`
unfoldable pub cond_wait : ℕ → Ptr → List (List Op) → Cond → Option (Cond × List (List Op))
unfolding wait_loop
cond_wait fuel w rounds c = wait_loop fuel w rounds (enqueue w c)
