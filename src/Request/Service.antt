-- ===== src/Request/Service.antt =====
-- src/request/request.service.ts
pub mod Creating
pub mod Deciding
unfoldable pub use Creating.*
unfoldable pub use Deciding.*
