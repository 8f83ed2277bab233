-- ===== src/Rag.antt =====
-- Retrieval: how texts become the chunks that questions are answered from (internal/rag).
pub mod Alias
pub mod Chunk
pub mod Index
pub mod Retrieval
pub mod Segments
