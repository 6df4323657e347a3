-- ===== src/OrderBook.antt =====
-- trading/orderbook/orderbook.go: the price-time priority book of one market.
mod Types
mod Levels
mod Ops
mod Match
mod Snapshots
pub mod Index
pub mod Rounds
pub mod MatchLaws
pub mod FillLaws
pub mod PriceLaws
mod Tests
unfoldable pub use Types.*
unfoldable pub use Levels.*
unfoldable pub use Ops.*
unfoldable pub use Match.*
unfoldable pub use Snapshots.*
