-- ===== src/Atlas.antt =====
-- api/pkg/atlas: the data model, the in-memory store, and the lookup over it.
pub mod Types
pub mod Kinds
pub mod Postal
pub mod Store
pub mod Graph
pub mod Buckets
pub mod Queries
pub mod Search
pub mod Lookup
pub mod Fields
pub mod Submission
pub mod Tests
