-- ===== src/Lib.antt =====
-- The trading core of Qiu Market: an exchange for one market that keeps an order book, a
-- double-entry ledger and a log of its commands, with the recovery coordinator that admits its
-- commands, the publisher of its outbox, and the retry of operations.
--
-- The parts, and the file that models each:
--   Domain      trading/domain/types.go. Markets, requests, orders, events and commands; the checked
--               int64 arithmetic; validation. Market is MarketConfig, Result is Outcome.
--   OrderBook   trading/orderbook/orderbook.go. Levels and queues by price, the index of orders,
--               matching, snapshots and the check of a book.
--   Ledger      trading/ledger/ledger.go. Balances, posted transactions, holds and releases,
--               compaction and restoring.
--   Decimal     trading/decimal/decimal.go. Decimal strings to atoms and back.
--   Store       trading/store/store.go. Event records, the interface of an event store, and the store
--               in memory.
--   Exchange    trading/exchange/state.go, orders.go and exchange.go. The state, the commands (fund,
--               submit, cancel), settlement, the validation of a state, projections, and the runner
--               runLocked with its replay of requests; Restore and SaveSnapshot.
--   Recovery    trading/recovery/coordinator.go and memory_store.go. The phases between a start and
--               the moment that the service may write: Begin, Advance, Promote, Fail, admissions and
--               their validation, the continuity of the store, provenance and transport evidence.
--   Outbox      trading/outbox/publisher.go, with Cursor and PublishResult of
--               trading/store/postgres/store.go. The loop that publishes batches, retries and cleans
--               up, one round at a time, with the status that it reports.
--   Retry       common/retry/operation.go. Do, with the calls and the sleeps that it makes.
--   Prelude     Helpers: int64 values over the integers, strings as lists of bytes, Go maps, results.
--
-- How they interact. A call of Fund, Submit or Cancel makes a command, which runLocked either answers
-- from its kept requests or runs on a copy of the state: apply changes the book and posts to the
-- ledger, buildProjection reports, compactForSchema and validate close the trial, and the store
-- appends the record. Only then does the copy become the state. Every operation here takes the
-- state and returns the next one in a result, so an error drops the copy, as the source does. The
-- lock of the exchange makes each call one step. The recovery coordinator decides which commands
-- reach the exchange: Admit binds a command to the durable status, and ValidateAdmission tests it
-- again when the command is dequeued. Its methods change the coordinator also when they fail, so they
-- are actions from a state to a state and a reply; the steps of several coordinators that share a
-- store come one behind the other.
--
-- Numbers. An int64 is an integer; + and - that the source does not check wrap around (add64, sub64),
-- and a uint64 sequence is a natural number that is incremented mod 2^64. Where a theorem needs the
-- bounds that Go's types give, they are among its hypotheses. Strings are lists of bytes. A map is an
-- association list; the source reads a map by key, by size or sorted, so its order is of no account.
-- Where the source ranges over a map and returns the first error, the model returns one of them.
--
-- Loops. Match takes fuel, one more than the quantity that rests in the book: every round that goes on
-- takes at least one atom from it. isPowerOfTen and scalePrecision take the value as fuel, which a
-- division by ten lowers. Run of the publisher takes the list of its rounds, each with what the store,
-- the clock and the context answer. Every other loop is a recursion on a list or on a number of runs.
--
-- Parameters. Exchange.Runner takes the event store, the fingerprint of a request and the hash of a
-- state: the source makes the last two with encoding/json and crypto/sha256. Restore also takes the
-- store of snapshots and the JSON form of a state. Recovery takes the store of statuses, url.Parse,
-- the texts of errors, the clock and new epoch ids. The promises of a store are the fields of
-- EventStoreLaws and StatusStoreLaws, which the stores in memory keep. An error of marshalling is
-- left out, and so are the texts of errors, of which the sentinels are kept.
--
-- Not modelled: the persisted form of a state; the String methods; the digest of the executable; the
-- databases, services, crawlers, market data, market maker, retry strategies and front end around
-- this core. A nil and an empty slice are one list, also where reflect.DeepEqual tells them apart.
pub mod Prelude
pub mod Domain
pub mod OrderBook
pub mod Ledger
pub mod Decimal
pub mod Store
pub mod Exchange
pub mod Recovery
pub mod Outbox
pub mod Retry
