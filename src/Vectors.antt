-- ===== src/Vectors.antt =====
-- shared/common-libs/cbir_common/vectordb: the vector store that worker and query-service share.
pub mod Qdrant
pub mod Witnesses
pub mod Port
pub mod Memory
