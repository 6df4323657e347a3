-- ===== src/Exchange/Types.antt =====
-- The state of trading/exchange/state.go and the small helpers of trading/exchange/orders.go.
use qiu_market.Prelude.{
  ◌^◌, ℕ, ◌+◌, ◌%◌, not, ◌||◌, Option, none, some, List, [], ◌∷◌, ◌++◌, length, if◌then◌else◌, ◌==◌,
}
use qiu_market.Prelude.Int.{ℤ, pos}
use qiu_market.Prelude.Text.{Text, zero_padded, text_eq}
use qiu_market.Prelude.Dict.{Dict, insert}
use qiu_market.Prelude.Result.{Result, ok, ◌>>=◌, ◌>>◌}
use qiu_market.Domain.{
  MarketConfig, Order, Trade, Event, EventType, Outcome, IdempotencyKey, CancelOrder,
  order_rejected, cancel_rejected, rejected, no_status, unknown_side, buy, market, type_eq, side_eq,
  validate_market,
}
use qiu_market.OrderBook.{Book, new_book}
use qiu_market.Ledger.{Ledger, new_ledger}

-- requestRecord
pub record RequestRecord : Type 0 where
  pub fingerprint : Text
  pub result : Outcome

-- state
pub record State : Type 0 where
  pub market : MarketConfig
  pub sequence : ℕ
  pub book : Book
  pub ledger : Ledger
  pub orders : Dict Text Order
  pub trades : List Trade
  pub requests : Dict IdempotencyKey RequestRecord

-- newState
unfoldable pub new_state : MarketConfig → Result State
new_state m = do
  validate_market m
  book ← new_book m
  ok (record {
    market = m;
    sequence = 0;
    book = book;
    ledger = new_ledger;
    orders = [];
    trades = [];
    requests = [];
  })

-- domain.Event{} but for its first three fields.
abbrev pub blank_event : ℕ → ℕ → EventType → Event
blank_event sequence index event_type = record {
  sequence = sequence;
  index = index;
  event_type = event_type;
  account_id = [];
  order_id = [];
  client_order_id = [];
  status = no_status;
  side = unknown_side;
  price = pos 0;
  quantity = pos 0;
  remaining = pos 0;
  remaining_quote_budget = none;
  quote_amount = pos 0;
  asset = [];
  amount = pos 0;
  reason = [];
  trade = none;
}

-- appendEvent
unfoldable pub append_event : List Event → Event → List Event
append_event events event = events ++ record event { index = (length events + 1) % 2 ^ 32 } ∷ []

-- remainingQuoteBudgetFor
unfoldable pub remaining_quote_budget_for : Order → Option ℤ
remaining_quote_budget_for o =
    if not (o.order_type == market) || not (o.side == buy)
    then none
    else some o.remaining_quote_budget

-- `fmt.Sprintf("<prefix>%020d", sequence)`
unfoldable pub sequence_id : Text → ℕ → Text
sequence_id prefix sequence = prefix ++ zero_padded 20 sequence

-- rejectOrder
unfoldable pub reject_order : State → ℕ → Order → Text → State × Outcome
reject_order s sequence o reason =
    let o' : Order = record o {
      status = rejected;
      reject_reason = reason;
      last_sequence = sequence;
      held_asset = [];
      held_amount = pos 0;
    } in
    let event : Event = record (blank_event sequence 1 order_rejected) {
      account_id = o'.account_id;
      order_id = o'.id;
      client_order_id = o'.client_order_id;
      status = o'.status;
      side = o'.side;
      price = o'.price;
      quantity = o'.original_quantity;
      quote_amount = o'.original_quote_budget;
      remaining_quote_budget = remaining_quote_budget_for o';
      reason = reason;
    } in
    (
      record s { orders = insert o'.id o' s.orders },
      record { sequence = sequence; order_id = o'.id; status = o'.status; events = event ∷ [] },
    )

-- cancelRejected
unfoldable pub cancel_rejected_outcome : ℕ → CancelOrder → Text → Outcome
cancel_rejected_outcome sequence request reason =
    let event : Event = record (blank_event sequence 1 cancel_rejected) {
      account_id = request.account_id;
      order_id = request.order_id;
      status = rejected;
      reason = reason;
    } in
    record {
      sequence = sequence;
      order_id = request.order_id;
      status = rejected;
      events = event ∷ [];
    }
