-- ===== src/Retry.antt =====
-- common/retry/operation.go: an operation that is attempted again when it fails.
mod Operation
mod Attempts
mod Tests
unfoldable pub use Operation.*
