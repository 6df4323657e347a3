-- ===== src/Store.antt =====
-- trading/store/store.go: event records, the store interface, and the store in memory.
-- cloneRecord copies a record through JSON, which leaves its value; so copies are not modelled.
use qiu_market.Prelude.{
  ◌%◌, ℕ, ◌+◌, not, ◌&&◌, ◌||◌, Option, none, some, List, [], ◌∷◌, ◌++◌, length, drop, ltb, ◌==◌,
  nat_eq, ◌≡◌, arith,
}
use qiu_market.Prelude.Int.{ℤ, word_mod}
use qiu_market.Prelude.Text.{Text, text_eq, is_empty}
use qiu_market.Prelude.Result.{Result, ok, persistence, sequence_conflict, ◌>>◌, reject_if}
use qiu_market.Domain.{Order, Trade, Command, Outcome}
use qiu_market.Ledger.{Transaction}

abbrev pub legacy_schema_version : ℕ
legacy_schema_version = 3

abbrev pub previous_schema_version : ℕ
previous_schema_version = 4

abbrev pub current_schema_version : ℕ
current_schema_version = 5

pub record BalanceProjection : Type 0 where
  pub account_id : Text
  pub asset : Text
  pub available : ℤ
  pub held : ℤ

pub record Projection : Type 0 where
  pub orders : List Order
  pub trades : List Trade
  pub balances : List BalanceProjection

-- store.Record
pub record EventRecord : Type 0 where
  pub schema_version : ℕ
  pub market_id : Text
  pub command : Command
  pub result : Outcome
  pub journal : List Transaction
  pub projection : Projection
  pub state_hash : Text

-- store.Snapshot; the payload is left to the type of what is stored.
pub record StoreSnapshot : Type 0 where
  pub schema_version : ℕ
  pub market_id : Text
  pub sequence : ℕ
  pub state_hash : Text
  pub payload : Text

-- EventStore: a log, what appending makes of it, and the records behind a sequence number.
pub record EventStore : Type 1 where
  pub Log : Type 0
  pub append : Log → ℕ → EventRecord → Result Log
  pub records_after : Log → ℕ → Result (List EventRecord)

-- SnapshotStore
pub record SnapshotStore : Type 1 where
  pub Shelf : Type 0
  pub load : Shelf → Result (Option StoreSnapshot)
  pub save : Shelf → StoreSnapshot → Result Shelf

-- What a client of a log relies on: the log holds what was appended, in order, and nothing else.
pub record EventStoreLaws (store : EventStore) : Type 1 where
  pub contents : store.Log → List EventRecord
  pub append_lem :
      (l l' : store.Log) (n : ℕ) (r : EventRecord)
      → store.append l n r ≡ ok l'
      → contents l' ≡ contents l ++ r ∷ []
  pub records_lem : (l : store.Log) → store.records_after l 0 ≡ ok (contents l)

-- Memory
pub record Memory : Type 0 where
  pub market_id : Text
  pub records : List EventRecord
  pub snapshot : Option StoreSnapshot

-- NewMemory
abbrev pub new_memory : Memory
new_memory = record { market_id = []; records = []; snapshot = none }

-- Memory.Append, under a context that is not canceled.
unfoldable pub memory_append : Memory → ℕ → EventRecord → Result Memory
memory_append m expected r = do
  reject_if
      (not (length m.records == expected)
        || not (r.command.sequence == (expected + 1) % word_mod)
        || not (r.result.sequence == r.command.sequence))
      sequence_conflict
  reject_if
      (not (r.schema_version == current_schema_version)
        || is_empty r.market_id
        || not (r.command.request_key.market_id == r.market_id))
      persistence
  reject_if (not (is_empty m.market_id) && not (m.market_id == r.market_id)) persistence
  ok (record m { market_id = r.market_id; records = m.records ++ r ∷ [] })

-- Memory.RecordsAfter
unfoldable pub records_after : Memory → ℕ → Result (List EventRecord)
records_after m sequence = do
  reject_if (ltb (length m.records) sequence) sequence_conflict
  ok (drop sequence m.records)

-- Memory.Save
unfoldable pub memory_save : Memory → StoreSnapshot → Result Memory
memory_save m s = do
  reject_if (ltb (length m.records) s.sequence) sequence_conflict
  reject_if (not (s.schema_version == current_schema_version) || is_empty s.market_id) persistence
  reject_if (not (is_empty m.market_id) && not (m.market_id == s.market_id)) persistence
  ok (record m { market_id = s.market_id; snapshot = some s })

-- Memory.Load
unfoldable pub memory_load : Memory → Option StoreSnapshot
memory_load m = m.snapshot

-- Memory as an EventStore and as a SnapshotStore.
abbrev pub memory_store : EventStore
memory_store = record { Log = Memory; append = memory_append; records_after = records_after }

abbrev pub memory_shelf : SnapshotStore
memory_shelf = record { Shelf = Memory; load = λ m. ok (memory_load m); save = memory_save }

pub append_keeps :
    (l l' : Memory) (n : ℕ) (r : EventRecord)
    → memory_append l n r ≡ ok l'
    → l'.records ≡ l.records ++ r ∷ []
unfolding memory_append
append_keeps l l' n r e = ground arith

pub records_after_all : (l : Memory) → records_after l 0 ≡ ok l.records
unfolding records_after
records_after_all l = ground arith

abbrev pub memory_laws : EventStoreLaws memory_store
memory_laws = record {
  contents = λ m. m.records;
  append_lem = append_keeps;
  records_lem = records_after_all;
}
