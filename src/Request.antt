-- ===== src/Request.antt =====
-- src/request: time-off requests and their life.
pub mod Repository
pub mod Service
pub mod Inserts
pub mod Updates
pub mod Creation
pub mod Cancellation
pub mod Approval
pub mod Rejection
pub mod Reads
pub mod Returning
