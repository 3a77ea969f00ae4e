-- ===== src/Index.antt =====
-- src/index: the glob patterns that configure which files are indexed.
pub mod Glob
pub mod Paths
mod Tests
