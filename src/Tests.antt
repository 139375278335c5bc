-- ===== src/Tests.antt =====
-- Runs on concrete inputs, and the theorems at such inputs.
mod Arrays
mod Queues
mod Lists
mod Scheduler
mod Requests
mod Locks
mod Hashes
mod Wire
mod Threads
mod Fields
mod Channels
mod Handlers
mod Waits
mod Packing
