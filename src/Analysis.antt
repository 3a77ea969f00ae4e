-- ===== src/Analysis.antt =====
-- src/analysis: the encoding of semantic tokens, and external tools.
pub mod Tokens
pub mod External
mod Tests
