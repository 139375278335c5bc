-- ===== src/Corpc.antt =====
-- src/corpc: remote procedure calls, as messages on a TLS socket and the channels that carry them.
pub mod Proto
pub mod Channel
