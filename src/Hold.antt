-- ===== src/Hold.antt =====
-- src/hold: the hours that a request keeps back until it is settled.
pub mod Repository
