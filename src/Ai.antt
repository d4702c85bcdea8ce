-- ===== src/Ai.antt =====
-- ai-service: batched embeddings, reranking, perceptual hashes.
pub mod Http
pub mod Providers
pub mod Witnesses
pub mod Embeddings
pub mod Rerank
pub mod Hash
