-- ===== src/Outbox.antt =====
-- src/integration/outbox: the entries that carry requests to the HCM system.
pub mod Repository
pub mod Processor
pub mod Settlement
pub mod Failures
pub mod Refund
pub mod Claims
pub mod Returning
pub mod Timer
pub mod Endings
pub mod Rounds
