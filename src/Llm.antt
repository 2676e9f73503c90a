-- ===== src/Llm.antt =====
-- src/crypto_alpha_agent/llm: the runtime around the language model.
pub mod Retry
