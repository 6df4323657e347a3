-- ===== src/Exchange/Closing.antt =====
-- The end of applySubmit in trading/exchange/orders.go: the final status, the hold that is kept, and
-- the last event.
use qiu_market.Prelude.{ℕ, Bool, true, false, not, ◌&&◌, List, [], ◌∷◌, ◌++◌, if◌then◌else◌, ◌==◌}
use qiu_market.Prelude.Int.{ℤ, pos, ltb_ℤ, sub64, int_eq}
use qiu_market.Prelude.Text.{Text, bytes, text_eq}
use qiu_market.Prelude.Result.{Result, ok, internal, ◌>>=◌, ◌>>◌, reject_if}
use qiu_market.Domain.{
  MarketConfig, Order, Event, buy, limit, market, gtc, open_status, partially_filled, filled,
  canceled, order_rested, order_filled, order_canceled, type_eq, side_eq, force_eq, status_eq,
  quote_amount_ceil,
}
use qiu_market.OrderBook.{RawFill, MatchResult, StopReason, self_trade, budget_exhausted, reason_eq}
use qiu_market.Ledger.{Ledger, release}
use qiu_market.Exchange.Types.{blank_event, remaining_quote_budget_for, sequence_id}

-- `shouldRest`
unfoldable pub should_rest : Order → StopReason → Bool
should_rest o stop =
    o.order_type == limit
    && o.time_in_force == gtc
    && ltb_ℤ (pos 0) o.remaining_quantity
    && not (stop == self_trade)

abbrev pub is_empty_list : List RawFill → Bool
is_empty_list [] = true
is_empty_list (x ∷ xs) = false

-- The status of the taker and the hold that it has to keep.
unfoldable pub final_status : MarketConfig → Order → MatchResult → Result (Order × ℤ)
final_status m o result =
    if should_rest o result.stop_reason
    then (do
      let o' : Order = record o {
        status = if ltb_ℤ (pos 0) o.filled_quantity then partially_filled else open_status;
      }
      desired ←
          if o.side == buy
          then quote_amount_ceil m o.price o.remaining_quantity
          else ok o.remaining_quantity
      ok (o', desired))
    else (if o.order_type == market && o.side == buy
        then ok (
          record o {
            status =
                if not (is_empty_list result.fills) && result.stop_reason == budget_exhausted
                then filled
                else canceled;
          },
          pos 0,
        )
        else ok (
          record o { status = if o.remaining_quantity == pos 0 then filled else canceled },
          pos 0,
        ))

unfoldable pub release_taker_hold : Ledger → ℕ → Text → Order → ℤ → Result (Ledger × Order)
release_taker_hold l sequence asset o surplus = do
  l' ←
      release l (sequence_id (bytes "release:") sequence) (bytes "order-release:" ++ o.id)
        o.account_id asset surplus
  ok (l', record o { held_amount = sub64 o.held_amount surplus })

-- The release of what the taker holds beyond its need.
unfoldable pub release_surplus : Ledger → ℕ → Text → Order → ℤ → Result (Ledger × Order)
release_surplus l sequence asset o desired = do
  reject_if (ltb_ℤ o.held_amount desired) internal
  let surplus = sub64 o.held_amount desired
  released ←
      if ltb_ℤ (pos 0) surplus then release_taker_hold l sequence asset o surplus else ok (l, o)
  ok (
    released.0,
    if released.1.held_amount == pos 0 then record (released.1) { held_asset = [] } else released.1,
  )

-- The last event of a submit.
unfoldable pub closing_event : ℕ → Order → Bool → StopReason → Event
closing_event sequence o rest stop =
    if rest
    then record (blank_event sequence 0 order_rested) {
      account_id = o.account_id;
      order_id = o.id;
      client_order_id = o.client_order_id;
      status = o.status;
      side = o.side;
      price = o.price;
      quantity = o.original_quantity;
      remaining = o.remaining_quantity;
    }
    else (if o.status == filled
        then record (blank_event sequence 0 order_filled) {
          account_id = o.account_id;
          order_id = o.id;
          client_order_id = o.client_order_id;
          status = o.status;
          side = o.side;
          price = o.price;
          quantity = o.filled_quantity;
          quote_amount = o.spent_quote;
          remaining_quote_budget = remaining_quote_budget_for o;
        }
        else record (blank_event sequence 0 order_canceled) {
          account_id = o.account_id;
          order_id = o.id;
          client_order_id = o.client_order_id;
          status = o.status;
          side = o.side;
          price = o.price;
          quantity = o.filled_quantity;
          remaining = o.remaining_quantity;
          quote_amount = o.spent_quote;
          remaining_quote_budget = remaining_quote_budget_for o;
          reason =
              if stop == self_trade
              then bytes "self_trade_prevented"
              else bytes "unfilled_remainder";
        })
