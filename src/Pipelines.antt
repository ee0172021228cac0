-- ===== src/Pipelines.antt =====
-- app/pipelines/*.py: the pure steps of minutes generation and document indexing.
pub mod Chunking
pub mod Evidence
pub mod Quality
pub mod Transcript
pub mod Tiptap
