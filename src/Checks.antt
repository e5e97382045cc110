-- ===== src/Checks.antt =====
-- The checks package: results, the stored checks, and the service that records a result.
pub mod Entities
pub mod Repository
pub mod Service
