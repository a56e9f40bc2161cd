-- ===== src/Hcm.antt =====
-- src/integration/hcm: the HCM system as the service sees it.
pub mod Port
pub mod CircuitBreaker
pub mod HttpAdapter
pub mod MockAdapter
