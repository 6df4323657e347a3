-- ===== src/Recovery.antt =====
-- The recovery coordinator, trading/recovery: the phases between a start of the service and the
-- moment that it may write, with the proofs and the transport evidence that a phase asks for.
mod Types
mod Provenance
mod Status
mod Actions
mod Coordinator
mod Memory
mod Rows
mod Changes
mod Durable
mod Steps
mod Calls
mod Fence
mod Evidence
mod Blocked
mod MemoryLaws
mod Warmup
mod Writable
mod Tests
unfoldable pub use Types.*
unfoldable pub use Provenance.*
unfoldable pub use Status.*
unfoldable pub use Actions.*
unfoldable pub use Coordinator.*
unfoldable pub use Memory.*
