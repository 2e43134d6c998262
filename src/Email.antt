-- ===== src/Email.antt =====
-- internal/email: the messages, and the processor of the outbox.
pub mod Messages
pub mod OutboxStore
pub mod Processor
