-- ===== src/Risk.antt =====
-- src/crypto_alpha_agent/risk: the gates that stand between an idea and any execution.
pub mod Guardian
pub mod PaperGate
pub mod Rollout
pub mod Review
pub mod Feasibility
pub mod Charter
pub mod Ranking
