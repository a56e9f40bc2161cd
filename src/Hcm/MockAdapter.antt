-- ===== src/Hcm/MockAdapter.antt =====
-- src/integration/hcm/mock-hcm-adapter.ts: an HCM system in memory, with failures on demand.
pub mod Faults
pub mod State
pub mod Calls
pub mod Steps
pub mod Changes
pub mod Ledger
pub mod Invariants
pub mod Totals
pub mod Within
pub mod Bounds
pub mod Replay
pub mod RoundTrip
pub mod Countdown
