-- ===== src/Providers.antt =====
-- app/providers/*.py.
pub mod Citations
pub mod AnswerFormat
pub mod Chat
pub mod SinglePass
pub mod ContextLoader
pub mod Routing
pub mod GeminiReranker
