-- ===== src/Audit.antt =====
-- tessera/audit: the hash chain of events, its verifier, and the sinks.
pub mod Canonical
pub mod Chain
pub mod Verifier
pub mod Sqlite
pub mod Emitter
pub mod Queue
pub mod Buffered
pub mod Export
pub mod Bundle
