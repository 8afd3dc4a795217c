-- ===== src/Queue.antt =====
-- internal/queue: the dead letter queue for failed database writes.
pub mod Dlq
