-- ===== src/Exchange/Fills.antt =====
-- The loop over the fills in applySubmit of trading/exchange/orders.go.
use qiu_market.Prelude.{
  ℕ, ◌+◌, not, ◌&&◌, Option, none, some, List, [], ◌∷◌, ◌++◌, if◌then◌else◌, ◌==◌,
}
use qiu_market.Prelude.Int.{ℤ, pos, ltb_ℤ, sub64, int_eq}
use qiu_market.Prelude.Text.{text_eq}
use qiu_market.Prelude.Dict.{lookup_or, insert}
use qiu_market.Prelude.Result.{Result, ok, internal, ◌>>=◌, ◌>>◌, reject_if}
use qiu_market.Domain.{
  Order, Trade, Event, buy, market, partially_filled, filled, trade_executed, order_filled, type_eq,
  side_eq, force_eq, status_eq, checked_add,
}
use qiu_market.OrderBook.{Book, RawFill, reason_eq, zero_order, update}
use qiu_market.Exchange.Types.{State, blank_event, append_event}
use qiu_market.Exchange.Settle.{consume_order_hold, release_excess_buy_hold, settle_fill}

-- What the loop over the fills carries: the state, the taker, the events and the two remainders
-- that the events report.
pub record Progress : Type 0 where
  pub state : State
  pub order : Order
  pub events : List Event
  pub event_quantity : ℤ
  pub event_budget : ℤ

-- The maker of a fill in the order index: its new remainder, totals and status.
unfoldable pub filled_maker : Order → RawFill → ℕ → Result Order
filled_maker maker fill sequence = do
  filled_quantity ← checked_add maker.filled_quantity fill.quantity
  spent_quote ← checked_add maker.spent_quote fill.quote_amount
  ok (record maker {
    remaining_quantity = fill.maker_remaining;
    filled_quantity = filled_quantity;
    spent_quote = spent_quote;
    last_sequence = sequence;
    status = if fill.maker_remaining == pos 0 then filled else partially_filled;
  })

-- A filled maker keeps no hold; another is written to the book.
unfoldable pub settle_maker_in_book : Book → Order → Result (Book × Order)
settle_maker_in_book b maker =
    if maker.status == filled
    then (do
      reject_if (not (maker.held_amount == pos 0)) internal
      ok (b, record maker { held_asset = [] }))
    else (do b' ← update b maker; ok (b', maker))

-- The remainders behind a fill, and the budget that its event shows.
unfoldable pub event_remainders : Order → RawFill → ℤ → ℤ → Result (ℤ × ℤ × Option ℤ)
event_remainders o fill quantity budget =
    if o.order_type == market && o.side == buy
    then (do
      reject_if (ltb_ℤ budget fill.quote_amount) internal
      let left = sub64 budget fill.quote_amount
      ok (quantity, left, some left))
    else (do
      reject_if (ltb_ℤ quantity fill.quantity) internal
      ok (sub64 quantity fill.quantity, budget, none))

-- The events of a fill: the trade, and the end of a maker that is filled.
unfoldable pub fill_events :
    List Event → ℕ → Order → RawFill → ℤ → Option ℤ → Trade → Order → List Event
fill_events events sequence o fill remaining budget trade maker =
    let events' = append_event events (record (blank_event sequence 0 trade_executed) {
      order_id = o.id;
      status = partially_filled;
      price = fill.price;
      quantity = fill.quantity;
      remaining = remaining;
      remaining_quote_budget = budget;
      quote_amount = fill.quote_amount;
      trade = some trade;
    }) in
    if maker.status == filled
    then append_event events' (record (blank_event sequence 0 order_filled) {
      account_id = maker.account_id;
      order_id = maker.id;
      status = maker.status;
      side = maker.side;
      price = maker.price;
      quantity = maker.original_quantity;
    })
    else events'

-- One round of the loop over the fills.
unfoldable pub apply_fill : ℕ → ℕ → RawFill → Progress → Result Progress
apply_fill sequence fill_index fill p = do
  let s = p.state
  settled ← settle_fill s sequence fill_index p.order fill
  order ← consume_order_hold p.order fill
  maker ← filled_maker (lookup_or zero_order fill.maker_order_id s.orders) fill sequence
  maker ← consume_order_hold maker fill
  released ← release_excess_buy_hold s.market settled.0 sequence fill_index maker
  stored ← settle_maker_in_book s.book released.1
  left ← event_remainders order fill p.event_quantity p.event_budget
  ok (record {
    state = record s {
      ledger = released.0;
      book = stored.0;
      orders = insert stored.1.id stored.1 s.orders;
      trades = s.trades ++ settled.1 ∷ [];
    };
    order = order;
    events = fill_events p.events sequence order fill left.0 left.2 settled.1 stored.1;
    event_quantity = left.0;
    event_budget = left.1;
  })

unfoldable pub apply_fills : ℕ → ℕ → List RawFill → Progress → Result Progress
apply_fills sequence fill_index [] p = ok p
apply_fills sequence fill_index (fill ∷ fills) p = do
  p' ← apply_fill sequence fill_index fill p
  apply_fills sequence (fill_index + 1) fills p'
