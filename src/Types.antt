-- ===== src/Types.antt =====
-- The shared types of src/common/types/index.ts and the row types of the database.
mod Texts
mod Status
mod Rows
mod Log
pub use Texts.*
pub use Status.*
pub use Rows.*
pub use Log.*
