-- ===== src/Tests.antt =====
-- Concrete inputs for the theorems.
mod Access
mod Chat
mod Events
mod Feedback
mod Indexing
mod Listing
mod Pipelines
mod Rag
mod Redis
mod Reminder
mod Sparse
mod Workflows
