-- ===== src/Server.antt =====
-- The API server (server/): its cache of sessions and the authorization of requests.
pub mod SessionCache
pub mod Auth
pub mod Messages
pub mod ToProto
pub mod Service
pub mod Setup
