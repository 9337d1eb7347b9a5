-- ===== src/Application.antt =====
-- internal/application: the limiter of requests, the push socket and the EventSub pipeline.
pub mod RateLimit
pub mod Audits
pub mod PushSocket
pub mod EventSub
pub mod Dispatch
pub mod Webhook
