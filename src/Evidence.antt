-- ===== src/Evidence.antt =====
-- src/crypto_alpha_agent/evidence: the evidence that paper trading and validation leave behind.
pub mod Json
pub mod Models
pub mod Readiness
pub mod Checks
pub mod Aggregate
