-- ===== src/Sqlite.antt =====
-- The submission queue in SQLite, api/internal/store/sqlite.
pub mod Rows
pub mod Submissions
pub mod Pages
