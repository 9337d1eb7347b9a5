-- ===== src/Memory.antt =====
-- internal/storage/memory: the repositories of the tests and of a process without a database. Each
-- store is a record of maps; a method takes the store, its arguments and the time that the code reads
-- from `time.Now`, and returns the new store beside its result. A method holds the store's lock from
-- its first line to its last, so one call is one step.
pub mod Trim
pub mod Delivery
pub mod Settings
pub mod Audit
pub mod Secrets
pub mod Registrations
pub mod Auth
