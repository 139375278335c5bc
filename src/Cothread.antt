-- ===== src/Cothread.antt =====
-- src/cothread: coroutines on threads of the system, with their scheduler.
pub mod Coroutine
pub mod Waiter
pub mod Walk
pub mod Queue
pub mod Lock
pub mod Core
pub mod Io
