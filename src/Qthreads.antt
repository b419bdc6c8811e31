-- ===== src/Qthreads.antt =====
-- src/impl/qthreads: the Qthreads backend.
pub mod Cond
pub mod SelfKey
