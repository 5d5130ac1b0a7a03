-- ===== src/Pipeline.antt =====
-- internal/pipeline: the processing of entries before they reach their consumers.
pub mod Names
pub mod Steps
pub mod Engine
pub mod Tests
