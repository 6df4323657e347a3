-- ===== src/Domain.antt =====
-- trading/domain/types.go: the data of the trading core, its checked int64 arithmetic, and the
-- validation of markets and requests.
mod Types
mod Arith
mod Market
mod Requests
pub mod Equality
pub mod ArithLaws
pub mod MarketLaws
mod Tests
unfoldable pub use Types.*
unfoldable pub use Arith.*
unfoldable pub use Market.*
unfoldable pub use Requests.*
