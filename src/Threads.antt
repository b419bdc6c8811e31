-- ===== src/Threads.antt =====
-- src/threads.h and src/impl/base/create_join.c: the life of a `thread_t`. What the thread library
-- returns is an argument of each operation.
pub mod Live
pub mod Acquire
mod Tests
use libult.Base.{
  ℕ, zero, suc, Ptr, null, Bool, true, false, List, [], ◌∷◌, ◌==◌, ◌||◌, not, if◌then◌else◌, Codes,
}

-- `thread_t`; its functions do not use `t_arg`.
pub record Thread : Type 0 where
  pub t_run : Ptr
  pub t_handle : ℕ

-- `(pthread_t) -1`
abbrev pub no_handle : ℕ
no_handle = 0xffff_ffff_ffff_ffff

-- `thread_construct`
unfoldable pub thread_construct : Thread → Thread
thread_construct t = record { t_run = null; t_handle = no_handle }

-- What `thread_start` refuses in a debug build.
abbrev pub is_refused : Bool → Thread → Bool
is_refused enable_debug t =
    if enable_debug then (null == t.t_run) || not (no_handle == t.t_handle) else false

-- `thread_start`. `pthread_create` returns `rc` and leaves `handle`.
unfoldable pub thread_start : Codes → Bool → ℕ → ℕ → Thread → ℕ × Thread
thread_start codes enable_debug rc handle t =
    if is_refused enable_debug t
    then (codes.err_bad_param, t)
    else ((if 0 == rc then codes.success else codes.err_in_errno), record t { t_handle = handle })

-- `thread_join`. `pthread_join` returns `rc`.
unfoldable pub thread_join : Codes → ℕ → Thread → ℕ × Thread
thread_join codes rc t =
    ((if 0 == rc then codes.success else codes.err_in_errno), record t { t_handle = no_handle })

-- `thread_self_compare`, where `pthread_self` returns `self`.
unfoldable pub thread_self_compare : ℕ → Thread → Bool
thread_self_compare self t = self == t.t_handle

-- `thread_get_self`: `OBJ_NEW` runs the constructor on what was allocated.
unfoldable pub thread_get_self : ℕ → Thread → Thread
unfolding thread_construct
thread_get_self self allocated = record (thread_construct allocated) { t_handle = self }

-- What the owner of a `thread_t` does with it, with what the library returns.
pub data Op : Type 0 where
  set_run : Ptr → Op
  start : ℕ → ℕ → Op
  join : ℕ → Op

-- The `thread_t`, and the handles of the threads that were created and not joined.
pub record Life : Type 0 where
  pub thread : Thread
  pub live : List ℕ

-- The first occurrence taken off.
abbrev pub ended : ℕ → List ℕ → List ℕ
ended h [] = []
ended h (x ∷ xs) = if h == x then xs else x ∷ ended h xs

-- One operation.
unfoldable pub live_step : Codes → Bool → Op → Life → Life
unfolding thread_start thread_join
live_step codes enable_debug (set_run f) s = record s { thread = record s.thread { t_run = f } }
live_step codes enable_debug (start rc handle) s =
    let (ret, t) = thread_start codes enable_debug rc handle s.thread in
    record { thread = t; live = if ret == codes.success then handle ∷ s.live else s.live }
live_step codes enable_debug (join rc) s =
    let (ret, t) = thread_join codes rc s.thread in
    record {
      thread = t;
      live = if ret == codes.success then ended s.thread.t_handle s.live else s.live;
    }

unfoldable pub live_run : Codes → Bool → List Op → Life → Life
unfolding live_step
live_run codes enable_debug [] s = s
live_run codes enable_debug (op ∷ ops) s =
    live_run codes enable_debug ops (live_step codes enable_debug op s)
