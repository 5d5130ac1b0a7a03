-- ===== src/Graph.antt =====
-- internal/graph: the architecture graph extracted from the stream of entries.
pub mod Edges
pub mod Extractor
pub mod Tests
