-- ===== src/Tail.antt =====
-- internal/tail: the live stream of entries to subscribers.
pub mod Hub
pub mod Tests
