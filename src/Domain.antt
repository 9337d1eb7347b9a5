-- ===== src/Domain.antt =====
-- internal/domain: the data that the components exchange, a module for each file.
pub mod Clock
pub mod Json
pub mod EventSub
pub mod Delivery
pub mod Registration
pub mod Auth
pub mod Settings
pub mod Audit
