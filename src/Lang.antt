-- ===== src/Lang.antt =====
-- PHP's names, versions and file headers.
pub mod Builtins
pub mod FileHeader
pub mod Versions
pub mod Config
pub mod DocHtml
