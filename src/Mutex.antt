-- ===== src/Mutex.antt =====
-- src/mutex.h, src/impl/base/mutex.c and the mutexes of the three backends.
pub mod Backend
pub mod Cond
pub mod Init
pub mod Compose
pub mod Object
mod Tests
