-- ===== src/Text.antt =====
-- src/text: conversions between offsets, edits, words, and fuzzy matching.
pub mod Fuzzy
pub mod Offset
pub mod Word
mod Tests
