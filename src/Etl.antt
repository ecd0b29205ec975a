-- ===== src/Etl.antt =====
-- The importers of api/internal/etl.
pub mod Slugify
