-- ===== src/Tests.antt =====
-- Examples: a small office, and the theorems applied to what happens in it.
pub mod Office
mod Requests
mod Calls
mod Batches
mod Reads
mod Incoming
mod Returning
mod Adapters
mod System
mod Rounds
mod Servers
mod Installing
