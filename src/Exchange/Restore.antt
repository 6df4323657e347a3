-- ===== src/Exchange/Restore.antt =====
-- Restore and SaveSnapshot of trading/exchange/exchange.go. The stores, the hash of a state and the
-- JSON form of a state are parameters.
use qiu_market.Prelude.{
  ℕ, ◌+◌, ◌%◌, Bool, true, not, ◌||◌, ◌&&◌, none, some, List, [], ◌∷◌, if◌then◌else◌, ◌==◌, nat_eq,
  length, ltb,
}
use qiu_market.Prelude.Int.{pos, word_mod}
use qiu_market.Prelude.Text.{Text, text_eq, is_empty}
use qiu_market.Prelude.Dict.{contains, insert}
use qiu_market.Prelude.Result.{Result, ok, recovery_diverged, ◌>>=◌, ◌>>◌, reject_if, relabel}
use qiu_market.Domain.{MarketConfig, Outcome, Command, key_eq, kind_eq, validate_key}
use qiu_market.Domain.Equality.{market_config_eq, outcome_eq}
use qiu_market.Ledger.{journal_from}
use qiu_market.Store.{
  EventStore, SnapshotStore, EventRecord, StoreSnapshot, legacy_schema_version,
  previous_schema_version, current_schema_version,
}
use qiu_market.Exchange.Types.{State, new_state}
use qiu_market.Exchange.Commands.{apply, validate_command_identity}
use qiu_market.Exchange.Views.{build_projection}
use qiu_market.Exchange.Validate.{clone_state, compact_for_schema, validate_state}
use qiu_market.Exchange.Runner.{Exchange, Payload, keeps_request}
use qiu_market.Exchange.Equality.{journal_eq, projection_eq}

-- supportedSchemaVersion
abbrev pub supported_schema_version : ℕ → Bool
supported_schema_version v =
    v == legacy_schema_version || v == previous_schema_version || v == current_schema_version

-- The request that a replayed command leaves, with the schema of its record.
unfoldable pub replay_remember : ℕ → State → Command → Outcome → State
replay_remember version s c result =
    if version == legacy_schema_version || keeps_request c.request_key
    then record s {
      requests =
          insert c.request_key (record { fingerprint = c.fingerprint; result = result }) s.requests;
    }
    else s

-- `verifyState`, of a record and those behind it.
abbrev pub verify_state : EventRecord → List EventRecord → Bool
verify_state r [] = true
verify_state r (next ∷ rs) =
    r.schema_version == current_schema_version || not (next.schema_version == r.schema_version)

module _ (state_hash : State → Text) where
  -- The end of a round: the state is validated and its hash compared.
  unfoldable pub verify_replayed : Bool → State → EventRecord → Result State
  verify_replayed verify s r =
      if verify
      then (do
        relabel recovery_diverged (validate_state s)
        reject_if (not (state_hash s == r.state_hash)) recovery_diverged
        ok s)
      else ok s

  -- One round of the loop over the records: the command is replayed and compared to its record.
  unfoldable pub replay_command : MarketConfig → State → EventRecord → Result State
  replay_command m s r = do
    reject_if (not (r.command.sequence == (s.sequence + 1) % word_mod)) recovery_diverged
    reject_if (is_empty r.command.fingerprint || not (r.command.request_key.market_id == m.id))
        recovery_diverged
    relabel recovery_diverged (validate_command_identity r.command)
    relabel recovery_diverged (validate_key r.command.request_key)
    reject_if (contains r.command.request_key s.requests) recovery_diverged
    copy ← if r.schema_version == current_schema_version then clone_state s else ok s
    let trial : State = record copy { sequence = r.command.sequence }
    applied ← relabel recovery_diverged (apply trial r.command)
    journal ← journal_from applied.0.ledger (pos (length trial.ledger.journal))
    projection ← build_projection applied.0 r.command applied.1
    compacted ←
        compact_for_schema (replay_remember r.schema_version applied.0 r.command applied.1)
          r.schema_version
    reject_if
        (not (applied.1 == r.result)
          || not (journal == r.journal)
          || not (projection == r.projection))
        recovery_diverged
    ok compacted

  -- A round behind its tests of the schema.
  unfoldable pub replay_record : MarketConfig → State → EventRecord → Bool → Result State
  replay_record m s r verify = do replayed ← replay_command m s r; verify_replayed verify replayed r

  -- The schema that is active once a record has been seen; 0 stands for none.
  abbrev pub started_at : ℕ → EventRecord → ℕ
  started_at active r = if active == 0 then r.schema_version else active

  -- The tests of the schema that begin a round; a newer schema compacts the state.
  unfoldable pub enter_schema : MarketConfig → EventRecord → ℕ → State → Result State
  enter_schema m r started s = do
    reject_if (not (r.market_id == m.id) || not (supported_schema_version r.schema_version))
        recovery_diverged
    reject_if (ltb r.schema_version started) recovery_diverged
    if ltb started r.schema_version then compact_for_schema s r.schema_version else ok s

  -- The loop over the records, with the active schema.
  unfoldable pub replay_all : MarketConfig → List EventRecord → ℕ → State → Result (State × ℕ)
  replay_all m [] active s = ok (s, active)
  replay_all m (r ∷ rs) active s = do
    entered ← enter_schema m r (started_at active r) s
    s' ← replay_record m entered r (verify_state r rs)
    replay_all m rs
        (if ltb (started_at active r) r.schema_version
          then r.schema_version
          else started_at active r)
        s'

  module _ (store : EventStore) (shelf : SnapshotStore) (fingerprint : Payload → Text)
      (marshal : State → Text) (unmarshal : Text → Result State) where
    abbrev X : Type 0
    X = Exchange store state_hash fingerprint

    -- The state that a snapshot holds, and its schema.
    unfoldable pub load_snapshot : MarketConfig → StoreSnapshot → Result (State × ℕ)
    load_snapshot m sn = do
      reject_if (not (supported_schema_version sn.schema_version) || not (sn.market_id == m.id))
          recovery_diverged
      s ← unmarshal sn.payload
      reject_if (not (s.market == m)) recovery_diverged
      reject_if (not (s.sequence == sn.sequence)) recovery_diverged
      reject_if (not (state_hash s == sn.state_hash)) recovery_diverged
      ok (s, sn.schema_version)

    unfoldable pub starting_state : MarketConfig → shelf.Shelf → Result (State × ℕ)
    starting_state m shelved = do
      s ← new_state m
      found ← shelf.load shelved
      elim found [ none ↦ ok (s, 0) | some sn ↦ load_snapshot m sn ]

    -- The snapshot of a state, under the current schema.
    unfoldable pub snapshot_of : State → StoreSnapshot
    snapshot_of s = record {
      schema_version = current_schema_version;
      market_id = s.market.id;
      sequence = s.sequence;
      state_hash = state_hash s;
      payload = marshal s;
    }

    -- The end of Restore: a state under an older schema is compacted and saved.
    unfoldable pub upgrade : State → ℕ → shelf.Shelf → Result (State × shelf.Shelf)
    upgrade s active shelved =
        if not (active == 0) && ltb active current_schema_version
        then (do
          s' ← compact_for_schema s current_schema_version
          shelved' ← shelf.save shelved (snapshot_of s')
          ok (s', shelved'))
        else ok (s, shelved)

    -- Restore
    unfoldable pub restore : MarketConfig → store.Log → shelf.Shelf → Result (X × shelf.Shelf)
    restore m log shelved = do
      start ← starting_state m shelved
      records ← store.records_after log start.0.sequence
      replayed ← replay_all m records start.1 start.0
      upgraded ← upgrade replayed.0 replayed.1 shelved
      ok (record { log = log; state = upgraded.0 }, upgraded.1)

    -- SaveSnapshot
    unfoldable pub save_snapshot : X → shelf.Shelf → Result (shelf.Shelf × StoreSnapshot)
    save_snapshot x shelved = do
      shelved' ← shelf.save shelved (snapshot_of x.state)
      ok (shelved', snapshot_of x.state)
