-- ===== src/Exchange.antt =====
-- trading/exchange: the state of one market, its commands, and the idempotent command runner.
mod Types
mod Settle
mod Fills
mod Closing
mod Submit
mod Commands
mod Views
mod Validate
mod Runner
pub mod Equality
mod Restore
mod Posting
mod Conservation
mod Accounting
mod Trials
mod Idempotency
mod Retries
mod Recovered
mod Verified
mod Replay
mod Outcomes
mod Tests
mod RestoreTests
unfoldable pub use Types.*
unfoldable pub use Settle.*
unfoldable pub use Fills.*
unfoldable pub use Closing.*
unfoldable pub use Submit.*
unfoldable pub use Commands.*
unfoldable pub use Views.*
unfoldable pub use Validate.*
unfoldable pub use Runner.*
unfoldable pub use Restore.*
