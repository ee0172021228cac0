-- ===== src/Feedback.antt =====
-- Feedback during a meeting: app/consumers/redis_feedback.py and app/workflows/meeting_feedback.py.
pub mod Window
pub mod State
pub mod Consumer
