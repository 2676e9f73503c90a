-- ===== src/Pipeline.antt =====
-- src/crypto_alpha_agent/pipeline: the runs that collect evidence.
pub mod RunLock
pub mod Iteration
