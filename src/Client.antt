-- ===== src/Client.antt =====
-- amizone/: the client of the portal. `Types` has its state and what it calls, `Request` the HTTP
-- requests, `Login` the login, `Retry` requests that log in first or again.
pub mod Types
pub mod Request
pub mod Login
pub mod Retry
pub mod Wifi
pub mod Schedule
pub mod Getters
pub mod Feedback
pub mod Construct
