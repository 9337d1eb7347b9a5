-- ===== src/Tests.antt =====
-- The properties at concrete inputs.
pub mod Samples
pub mod Deliveries
pub mod Messages
pub mod Stores
pub mod SignIns
pub mod Requests
pub mod Sockets
pub mod Events
pub mod Webhooks
