-- ===== src/Validation.antt =====
-- src/crypto_alpha_agent/validation: historical validation of strategies.
pub mod WalkForward
pub mod Gates
pub mod Momentum
