-- ===== src/Event.antt =====
-- bridge/event: the server's clock, and what is queued for a client.
pub mod Time
pub mod Outbox
pub mod Sink
