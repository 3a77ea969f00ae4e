-- ===== src/Editing.antt =====
-- src/editing: edits of the source text.
pub mod OrganizeImports
pub mod StringMask
pub mod OnTypeFormat
mod Tests
