-- ===== src/Execution.antt =====
-- src/crypto_alpha_agent/execution: the simulated account that paper trades run on.
pub mod Paper
pub mod Cost
