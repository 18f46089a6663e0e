-- ===== src/Llm.antt =====
-- backend/src/llm and backend/src/search: the shared provider's capacity.
pub mod Gate
