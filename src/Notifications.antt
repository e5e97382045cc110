-- ===== src/Notifications.antt =====
-- The notifications package: destinations, deliveries, the texts of a message, and the services
-- that fan an event out and send a delivery.
pub mod Entities
pub mod Content
pub mod Destinations
pub mod Deliveries
pub mod Sql
pub mod Service
pub mod Slack
pub mod Factory
pub mod DestinationService
pub mod Worker
