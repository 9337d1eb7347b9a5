-- ===== src/Application/EventSub.antt =====
-- internal/application/eventsub.go: what the server does with a message of Twitch.
pub mod Values
pub mod Rules
pub mod Routing
pub mod Wanted
pub mod Queue
