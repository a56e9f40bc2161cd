-- ===== src/MockServer.antt =====
-- src/mock-hcm-server/server.ts: an HCM system over HTTP, for tests and development.
pub mod Rules
pub mod State
pub mod Handlers
pub mod Admin
pub mod Routes
pub mod Unknown
pub mod Hours
pub mod Replay
