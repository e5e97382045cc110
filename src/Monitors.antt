-- ===== src/Monitors.antt =====
-- The monitors package: entities, the status machine, the repository with its check leases, and
-- the service.
pub mod Entities
pub mod State
pub mod Repository
pub mod Models
pub mod Sql
pub mod Service
