-- ===== src/Document.antt =====
-- src/document: the caches, the open files, and offsets in a parsed document.
pub mod CacheRegistry
pub mod OpenFiles
pub mod Handlers
pub mod Positions
mod Tests
