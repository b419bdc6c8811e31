-- ===== src/WaitSync.antt =====
-- src/wait_sync.h and src/impl/base/wait_sync.c: waiting for a number of completions.
pub mod State
mod Sample
pub mod Pending
pub mod Update
pub mod Wakeup
pub mod Wait
pub mod Protocol
