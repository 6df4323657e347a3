-- ===== src/Ledger.antt =====
-- trading/ledger/ledger.go: double-entry balances with a journal.
mod Types
mod Ops
mod Restore
pub mod Drafts
pub mod Effect
pub mod Conservation
pub mod Moves
mod Tests
unfoldable pub use Types.*
unfoldable pub use Ops.*
unfoldable pub use Restore.*
