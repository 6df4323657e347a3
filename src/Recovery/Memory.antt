-- ===== src/Recovery/Memory.antt =====
-- trading/recovery/memory_store.go: the store in memory, a row and a history for each market.
use qiu_market.Prelude.Int.{word_mod}
use qiu_market.Recovery.Actions.{Act, done, failed}
use qiu_market.Recovery.Coordinator.{StatusStore}
use qiu_market.Recovery.Types.{Status, version_conflict}
use qiu_market.Prelude.Text.{Text, text_eq}
use qiu_market.Prelude.Dict.{Dict, lookup_or, lookup, insert}
use qiu_market.Prelude.{
  ℕ, ◌+◌, ◌%◌, Bool, not, ◌||◌, if◌then◌else◌, eqb, Option, none, some, List, [], ◌∷◌, ◌++◌,
}

-- MemoryStore
pub record MemoryStore : Type 0 where
  pub current : Dict Text Status
  pub history : Dict Text (List Status)

-- NewMemoryStore
abbrev pub new_memory_store : MemoryStore
new_memory_store = record { current = []; history = [] }

-- Load
unfoldable pub load : Text → Act MemoryStore (Option Status)
load market s = (s, done (lookup market s.current))

-- The tests of Save on the row that is there; the version is to be the next one.
abbrev pub conflicts : Option Status → ℕ → Status → Bool
conflicts none expected next =
    not (eqb expected 0) || not (eqb next.version ((expected + 1) % word_mod))
conflicts (some row) expected next =
    not (eqb row.version expected) || not (eqb next.version ((expected + 1) % word_mod))

-- Save
unfoldable pub save : ℕ → Status → Act MemoryStore (Unit {0})
save expected next s =
    if conflicts (lookup next.market_id s.current) expected next
    then (s, failed version_conflict)
    else (
      record {
        current = insert next.market_id next s.current;
        history =
            insert next.market_id (lookup_or [] next.market_id s.history ++ next ∷ []) s.history;
      },
      done tt,
    )

-- History
abbrev pub history_of : MemoryStore → Text → List Status
history_of s market = lookup_or [] market s.history

abbrev pub memory_store : StatusStore
memory_store = record { Shelf = MemoryStore; load = load; save = save }
