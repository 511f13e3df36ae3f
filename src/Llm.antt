-- ===== src/Llm.antt =====
-- The client of the language model (src/llm).
pub mod Client
