-- ===== src/Mq.antt =====
-- The message queue client of mq/rabbitmq.
pub mod Rabbit
mod Tests
