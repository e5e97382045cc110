-- ===== src/Auth.antt =====
-- The auth package: refresh sessions, the context of a request, registration and login.
pub mod Refresh
pub mod Access
pub mod Registration
