-- ===== src/Batch.antt =====
-- src/integration/batch: balances that the HCM system sends or is asked for.
pub mod Repository
pub mod Sync
pub mod Flags
pub mod Items
pub mod Counts
pub mod Versions
pub mod Rounds
