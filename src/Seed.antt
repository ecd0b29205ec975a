-- ===== src/Seed.antt =====
-- The loader of the bundled data, api/internal/seedfiles.
pub mod Regions
pub mod Cycles
pub mod Orgs
pub mod Postal
pub mod Load
pub mod Build
pub mod Assembly
