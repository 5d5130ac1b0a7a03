-- ===== src/Query.antt =====
-- internal/query: the logical plan of a log query.
pub mod Plan
pub mod Tests
