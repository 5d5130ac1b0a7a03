-- ===== src/Ingest.antt =====
-- internal/ingest: the decoders of the log protocols.
pub mod Bytes
pub mod Runtime
pub mod Marks
pub mod Syslog
pub mod Journald
pub mod Ldformat
pub mod Python
pub mod Servers
