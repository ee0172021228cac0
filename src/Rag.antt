-- ===== src/Rag.antt =====
-- app/rag/*.py: retrieval and the vector store.
pub mod VectorStore
pub mod Sparse
pub mod AccessFilter
pub mod FeedbackFilter
pub mod Merging
pub mod QdrantChat
pub mod QdrantFeedback
pub mod QueryExpansion
