-- ===== src/Exchange/Submit.antt =====
-- applySubmit of trading/exchange/orders.go, in the order of its steps.
use qiu_market.Prelude.{
  ℕ, Bool, true, false, ◌&&◌, Option, none, some, List, [], ◌∷◌, ◌++◌, if◌then◌else◌, ◌==◌,
}
use qiu_market.Prelude.Int.{pos, int_eq}
use qiu_market.Prelude.Text.{Text, bytes, text_eq}
use qiu_market.Prelude.Dict.{insert}
use qiu_market.Prelude.Result.{Result, Error, ok, err, internal, insufficient_balance, ◌>>=◌, ◌>>◌}
use qiu_market.Domain.{
  MarketConfig, Order, NewOrder, Event, Outcome, Command, fok, received, canceled, order_accepted,
  self_trade_prevented, type_eq, side_eq, force_eq, status_eq, validate_order,
}
use qiu_market.OrderBook.{
  Book, MatchResult, StopReason, self_trade, reason_eq, add, would_cross, can_fill_fok, match_order,
}
use qiu_market.Ledger.{hold}
use qiu_market.Exchange.Types.{
  State, blank_event, append_event, remaining_quote_budget_for, sequence_id, reject_order,
}
use qiu_market.Exchange.Settle.{reserve_for}
use qiu_market.Exchange.Fills.{Progress, apply_fills}
use qiu_market.Exchange.Closing.{should_rest, final_status, release_surplus, closing_event}

-- The order that a request becomes.
unfoldable pub order_of_request : MarketConfig → ℕ → NewOrder → Order
order_of_request m sequence r = record {
  id = sequence_id (bytes "O-") sequence;
  client_order_id = r.client_order_id;
  account_id = r.account_id;
  market_id = m.id;
  side = r.side;
  order_type = r.order_type;
  time_in_force = r.time_in_force;
  post_only = r.post_only;
  price = r.price;
  original_quantity = r.quantity;
  remaining_quantity = r.quantity;
  filled_quantity = pos 0;
  original_quote_budget = r.quote_budget;
  remaining_quote_budget = r.quote_budget;
  spent_quote = pos 0;
  held_asset = [];
  held_amount = pos 0;
  status = received;
  accepted_sequence = sequence;
  last_sequence = sequence;
  reject_reason = [];
}

-- The checks in front of the reserve: `some` reason rejects the order.
unfoldable pub entry_gate : Book → NewOrder → Result (Option Text)
entry_gate b r =
    if r.post_only && would_cross b r.side r.price
    then ok (some (bytes "post_only_would_cross"))
    else (if r.time_in_force == fok
        then (do
          fillable ← can_fill_fok b r.account_id r.side r.price r.quantity
          ok (if fillable then none else some (bytes "fok_not_fillable")))
        else ok none)

-- The event EventOrderAccepted.
unfoldable pub accepted_event : ℕ → Order → Event
accepted_event sequence o = record (blank_event sequence 1 order_accepted) {
  account_id = o.account_id;
  order_id = o.id;
  client_order_id = o.client_order_id;
  status = received;
  side = o.side;
  price = o.price;
  quantity = o.original_quantity;
  quote_amount = o.original_quote_budget;
  remaining_quote_budget = remaining_quote_budget_for o;
}

unfoldable pub self_trade_events : List Event → ℕ → Order → StopReason → List Event
self_trade_events events sequence o stop =
    if stop == self_trade
    then append_event events (record (blank_event sequence 0 self_trade_prevented) {
      account_id = o.account_id;
      order_id = o.id;
      status = canceled;
      reason = bytes "cancel_taker";
    })
    else events

-- The part of applySubmit behind the settlement of the fills.
unfoldable pub finish_submit : ℕ → Text → MatchResult → Progress → Result (State × Outcome)
finish_submit sequence asset result p = do
  let s = p.state
  let stop = result.stop_reason
  let events = self_trade_events p.events sequence p.order stop
  decided ← final_status s.market p.order result
  released ← release_surplus s.ledger sequence asset decided.0 decided.1
  let order = released.1
  let rest = should_rest p.order stop
  book ← if rest then add s.book order else ok s.book
  let events' = append_event events (closing_event sequence order rest stop)
  ok (
    record s { ledger = released.0; book = book; orders = insert order.id order s.orders },
    record { sequence = sequence; order_id = order.id; status = order.status; events = events' },
  )

-- The part of applySubmit behind the hold: matching and settlement.
unfoldable pub execute_order : State → ℕ → NewOrder → Text → Order → Result (State × Outcome)
execute_order s sequence r asset order = do
  matched ← match_order s.book order
  p ← apply_fills sequence 1 matched.2.fills (record {
    state = record s { book = matched.0 };
    order = matched.1;
    events = accepted_event sequence order ∷ [];
    event_quantity = r.quantity;
    event_budget = r.quote_budget;
  })
  finish_submit sequence asset matched.2 p

-- `if errors.Is(err, ledger.ErrInsufficientBalance)`
abbrev pub is_insufficient : Error → Bool
is_insufficient insufficient_balance = true
is_insufficient _ = false

-- The part of applySubmit behind the entry checks.
unfoldable pub place_order : State → ℕ → NewOrder → Order → Result (State × Outcome)
place_order s sequence r order = do
  reserve ← reserve_for s.market order
  let order' : Order = record order { held_asset = reserve.0; held_amount = reserve.1 }
  elim (hold s.ledger (sequence_id (bytes "hold:") sequence) (bytes "order-hold:" ++ order.id)
      order.account_id reserve.0 reserve.1) [
        | ok l ↦ execute_order (record s { ledger = l }) sequence r reserve.0 order'
        | err e ↦
            if is_insufficient e
            then ok (reject_order s sequence order (bytes "insufficient_balance"))
            else err e
      ]

-- applySubmit
unfoldable pub apply_submit : State → Command → Result (State × Outcome)
apply_submit s c = elim c.submit_request [
  | none ↦ err internal
  | some r ↦ do
    validate_order r s.market
    let order = order_of_request s.market c.sequence r
    gate ← entry_gate s.book r
    elim gate [
      | some reason ↦ ok (reject_order s c.sequence order reason)
      | none ↦ place_order s c.sequence r order
    ]
]
