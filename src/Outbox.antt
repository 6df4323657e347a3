-- ===== src/Outbox.antt =====
-- The publisher of the outbox, trading/outbox/publisher.go.
mod Publisher
mod Backoff
mod Degraded
mod Tests
unfoldable pub use Publisher.*
