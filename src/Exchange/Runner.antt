-- ===== src/Exchange/Runner.antt =====
-- Fund, Submit, Cancel and runLocked of trading/exchange/exchange.go. The exchange's lock makes
-- every call one step. The store is a parameter, and so are the two fingerprints that the source
-- takes with encoding/json and crypto/sha256: of a request and of a state.
use qiu_market.Prelude.{◌+◌, ◌%◌, Bool, not, ◌||◌, none, some, List, if◌then◌else◌, ◌==◌, length}
use qiu_market.Prelude.Int.{pos, word_mod}
use qiu_market.Prelude.Text.{Text, text_eq}
use qiu_market.Prelude.Dict.{lookup, insert}
use qiu_market.Prelude.Result.{
  Result, ok, err, invalid_request, idempotency_conflict, persistence, canceled_context, ◌>>=◌,
  ◌>>◌, reject_if, relabel,
}
use qiu_market.Domain.{
  MarketConfig, Outcome, Command, FundRequest, NewOrder, CancelOrder, IdempotencyKey, fund,
  submit_order, cancel_order, kind_eq, key_eq, new_idempotency_key, validate_fund, validate_order,
  validate_cancel,
}
use qiu_market.Ledger.{Transaction, journal_from}
use qiu_market.Store.{EventStore, EventRecord, Projection, current_schema_version}
use qiu_market.Exchange.Types.{State}
use qiu_market.Exchange.Commands.{apply, validate_command_identity}
use qiu_market.Exchange.Views.{build_projection}
use qiu_market.Exchange.Validate.{
  clone_state, compact_for_schema, validate_state, ephemeral_demo_maker_account,
}

-- Is the result of a command kept for replay? The demo maker's only for funding.
abbrev pub keeps_request : IdempotencyKey → Bool
keeps_request k = not (k.account_id == ephemeral_demo_maker_account) || k.operation == fund

unfoldable pub remember : State → Command → Outcome → State
remember s c result =
    if keeps_request c.request_key
    then record s {
      requests =
          insert c.request_key (record { fingerprint = c.fingerprint; result = result }) s.requests;
    }
    else s

-- What a command makes of a state: the next state, the result, the new journal entries and the
-- projection.
pub record Trial : Type 0 where
  pub state : State
  pub result : Outcome
  pub journal : List Transaction
  pub projection : Projection

-- The part of runLocked from the copy of the state to the validation of the trial.
unfoldable pub run_trial : State → Command → Result Trial
run_trial s c = do
  copy ← clone_state s
  let trial : State = record copy { sequence = c.sequence }
  applied ← apply trial c
  journal ← journal_from applied.0.ledger (pos (length trial.ledger.journal))
  projection ← build_projection applied.0 c applied.1
  compacted ← compact_for_schema (remember applied.0 c applied.1) current_schema_version
  validate_state compacted
  ok (record { state = compacted; result = applied.1; journal = journal; projection = projection })

-- The request that domain.Fingerprint is taken of.
pub data Payload : Type 0 where
  of_fund : FundRequest → Payload
  of_submit : NewOrder → Payload
  of_cancel : CancelOrder → Payload

module _ (store : EventStore) (state_hash : State → Text) (fingerprint : Payload → Text) where
  -- Exchange
  pub record Exchange : Type 0 where
    pub log : store.Log
    pub state : State

  abbrev pub record_of : Command → Trial → State → EventRecord
  record_of c t s = record {
    schema_version = current_schema_version;
    market_id = s.market.id;
    command = c;
    result = t.result;
    journal = t.journal;
    projection = t.projection;
    state_hash = state_hash t.state;
  }

  -- The part of runLocked behind the replay: a new command.
  unfoldable pub run_new : Exchange → Command → Result (Exchange × Outcome)
  run_new x c = do
    let numbered : Command = record c { sequence = (x.state.sequence + 1) % word_mod }
    t ← run_trial x.state numbered
    log ← relabel persistence (store.append x.log x.state.sequence (record_of numbered t x.state))
    ok (record { log = log; state = t.state }, t.result)

  -- runLocked; the flag is whether the context has been canceled.
  unfoldable pub run_locked : Bool → Exchange → Command → Result (Exchange × Outcome)
  run_locked canceled x c = do
    reject_if canceled canceled_context
    relabel invalid_request (validate_command_identity c)
    reject_if (not (c.request_key.market_id == x.state.market.id)) invalid_request
    elim (lookup c.request_key x.state.requests) [
      | none ↦ run_new x c
      | some previous ↦
          if previous.fingerprint == c.fingerprint
          then ok (x, previous.result)
          else err idempotency_conflict
    ]

  unfoldable pub fund_command : MarketConfig → FundRequest → Command
  fund_command m r = record {
    sequence = 0;
    request_id = r.request_id;
    request_key = new_idempotency_key m.id r.account_id fund r.request_id;
    fingerprint = fingerprint (of_fund r);
    kind = fund;
    fund_request = some r;
    submit_request = none;
    cancel_request = none;
  }

  -- Fund
  unfoldable pub fund_account : Bool → Exchange → FundRequest → Result (Exchange × Outcome)
  fund_account canceled x r = do
    validate_fund r x.state.market
    run_locked canceled x (fund_command x.state.market r)

  unfoldable pub submit_command : MarketConfig → NewOrder → Command
  submit_command m r = record {
    sequence = 0;
    request_id = r.client_order_id;
    request_key = new_idempotency_key m.id r.account_id submit_order r.client_order_id;
    fingerprint = fingerprint (of_submit r);
    kind = submit_order;
    fund_request = none;
    submit_request = some r;
    cancel_request = none;
  }

  -- Submit
  unfoldable pub submit : Bool → Exchange → NewOrder → Result (Exchange × Outcome)
  submit canceled x r = do
    validate_order r x.state.market
    run_locked canceled x (submit_command x.state.market r)

  unfoldable pub cancel_command : MarketConfig → CancelOrder → Command
  cancel_command m r = record {
    sequence = 0;
    request_id = r.request_id;
    request_key = new_idempotency_key m.id r.account_id cancel_order r.request_id;
    fingerprint = fingerprint (of_cancel r);
    kind = cancel_order;
    fund_request = none;
    submit_request = none;
    cancel_request = some r;
  }

  -- Cancel
  unfoldable pub cancel_by_request : Bool → Exchange → CancelOrder → Result (Exchange × Outcome)
  cancel_by_request canceled x r = do
    validate_cancel r
    run_locked canceled x (cancel_command x.state.market r)
