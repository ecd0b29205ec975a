-- ===== src/Usage.antt =====
-- The packages under api/internal/usage.
pub mod Recorder
