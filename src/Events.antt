-- ===== src/Events.antt =====
-- app/events/*.py: the consumers of the RabbitMQ queues, the trackers that make them idempotent,
-- and the translation between events and commands.
pub mod Tracker
pub mod Effect
pub mod Mapper
pub mod Minutes
pub mod Documents
