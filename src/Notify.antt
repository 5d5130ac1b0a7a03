-- ===== src/Notify.antt =====
-- internal/notify: alert rules over the live stream of entries.
pub mod Match
pub mod Rule
pub mod Engine
pub mod Registry
pub mod Tests
