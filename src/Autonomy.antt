-- ===== src/Autonomy.antt =====
-- src/crypto_alpha_agent/autonomy: the cycle in which an agent changes the repository's code.
pub mod Runner
pub mod Cycle
