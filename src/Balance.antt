-- ===== src/Balance.antt =====
-- src/balance: the projections of HCM balances, and what the active holds leave of them.
pub mod Repository
pub mod Held
pub mod Updates
pub mod Service
