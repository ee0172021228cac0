-- ===== src/Workflows.antt =====
-- app/workflows/*.py.
pub mod DocumentIndexing
pub mod MeetingFeedback
pub mod MinutesGeneration
