-- ===== src/Examples.antt =====
-- The theorems at concrete inputs.
pub mod Data
pub mod Checks
pub mod Monitors
pub mod Organizations
pub mod Auth
pub mod Notifications
pub mod StatusPages
pub mod Access
pub mod Scheduler
pub mod Worker
pub mod Tables
pub mod Retention
pub mod Registration
pub mod Sql
pub mod Deliveries
