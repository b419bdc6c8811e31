-- ===== src/Lib.antt =====
-- Verification of libult, a threading library in C with three backends (Pthreads, Argobots and
-- Qthreads) under one interface: mutexes, condition variables, thread-specific data, atomics that
-- are only atomic where threads are in use, and wait synchronisation, in which threads wait for
-- counted completions and take turns at driving the progress engine.
--
-- The parts, and the files that model them:
--
-- - Base: names and lemmas that all modules share: lists of addresses, a field of all structures as
--   a function of the address, machine words (`% 2 ^ w` is written out), the return codes as a
--   parameter that no failure shares with success (src/thread_usage.h and others take them from a
--   header outside the repository).
-- - Usage: src/thread_usage.h, `using_threads` and the `thread_…` operations. `operator` has the
--   instances of THREAD_DEFINE_ATOMIC_OP; the processor's atomics are the parameter `Atomics`.
--   Usage.Macros has the instances, with their widths, and the macros of the header.
-- - WaitSync: src/wait_sync.h and src/impl/base/wait_sync.c. WaitSync.State has `ompi_wait_sync_t` as
--   maps by field, and `wait_sync_update` and the WAIT_SYNC macros; a call into a backend is an entry
--   of a trace. WaitSync.Pending has the two critical sections of `ompi_sync_wait_mt`, on a ring of
--   pointers, with the list of its members as the abstract view; WaitSync.Update runs of updates;
--   WaitSync.Wakeup the global wake-ups; WaitSync.Wait `ompi_sync_wait_mt`, `sync_wait_st` and SYNC_WAIT
--   from the view of one waiting thread, where what the others do meanwhile is any function on memory;
--   WaitSync.Protocol all the threads at once, from WAIT_SYNC_INIT to WAIT_SYNC_RELEASE, as steps in
--   the order of any schedule, on the list of members, with the pointers of the ring beside it in
--   WaitSync.Protocol.Pointers, `num_thread_in_progress` in WaitSync.Protocol.Crowd, the return code
--   against the updates alone in WaitSync.Protocol.Outcome, a failing global wake-up in
--   WaitSync.Protocol.Failure, and which updates find the structure still there in
--   WaitSync.Protocol.Sound.
-- - Condition: src/condition.h. What other threads and the progress engine do while the mutex is given
--   up is a list of operations for each round of a waiting loop, and what the clock shows comes
--   with the round. Condition.Threads has all the threads at once, with threads in use, as turns from a
--   lock of the mutex to its unlock.
-- - Qthreads: the condition variable of src/impl/qthreads/threads_qthreads_mutex.h, a queue on
--   pointers, against a first-in first-out list; and the creation of the key in
--   src/impl/qthreads/threads_qthreads_module.c by several threads, as steps in any order.
-- - Mutex: Mutex.Object is src/mutex.h and src/impl/base/mutex.c, over a lock with the operations of a
--   backend; Mutex.Backend the lock, trylock and unlock functions of the three
--   src/impl/*/threads_*_mutex.h, on the state of the process; Mutex.Backend.Build their
--   initialisation and destruction, with that of Pthreads, which has two builds, in Mutex.Init;
--   Mutex.Compose puts the mutex of src/mutex.h on each of them. Mutex.Cond has the condition variables
--   of Pthreads and Argobots, and the functions of mutex.c on top of them.
-- - Tsd: tracked keys, src/tsd.h and src/impl/base/tsd.c, over the list class and the slots of the
--   thread library as parameters; Tsd.Run sequences of their calls, and a value for each thread as
--   the abstract view; Tsd.Slots the `tsd_set` and `tsd_get` of the three
--   src/impl/*/threads_*_tsd.h, which fill the second parameter; Tsd.Keys the creation and deletion
--   of keys in each backend.
-- - Threads: `thread_t` of src/threads.h and src/impl/base/create_join.c. What the thread library
--   returns is an argument. Threads.Acquire has ACQUIRE_THREAD, RELEASE_THREAD and WAKEUP_THREAD as
--   steps of any number of threads.
-- - Yield: src/impl/pthreads/threads_pthreads_yield.c, the choice of what a yield does and the time to
--   sleep. Arithmetic on `double` is the parameter `Doubles`, of which Yield.Floating says what IEEE 754
--   promises; what the registration of a variable leaves in it is an argument.
--
-- How they interact: WaitSync uses the arithmetic of Usage; Mutex.Compose joins src/mutex.h to the
-- backends; Condition and Tsd record their calls of a mutex in their traces. Every
-- test directory is a module Tests with runs at concrete states.
--
-- Bounds and fuel: counters are words of 32 bits with wrap-around, and statements that need it say
-- that no wrap-around happens. The loops that follow pointers (`wakeup_mt_loop`, `wakeup_st_loop`,
-- `broadcast_loop`) take fuel and return `none` without it; the theorems on them show that one round
-- for each member of the ring, or one more than the waiters of the queue, is enough. The waiting
-- loops take the rounds that the environment provides, and `none` says that the wait outlasts them, or that
-- an assertion fails.
--
-- Not modelled: among the interleaved steps, what an update writes to a structure whose count is 0
-- already, though it is a use of the structure: a success takes the count below 0, and a failure writes
-- its status and signals once more; successes beyond a positive count; and a failing update in parts: it
-- writes the status and the count in one step, and a failing global wake-up is one step that finds
-- all locks free; the registration of components, which is data for
-- a framework outside the repository; memory order weaker than sequential consistency.
pub mod Base
pub mod Usage
pub mod WaitSync
pub mod Qthreads
pub mod Condition
pub mod Tsd
pub mod Threads
pub mod Mutex
pub mod Yield
