-- ===== src/OrderBook/Tests.antt =====
-- Matching in trading/orderbook/orderbook.go on a book with two resting asks.
use qiu_market.Prelude.Dict.{lookup, contains, lookup_or, insert, erase}
use qiu_market.OrderBook.Ops.{
  new_book, may_not_rest, add, remove_level, remove, cancel, would_cross, update, scan_queue,
  scan_prices, can_fill_fok,
}
use qiu_market.OrderBook.Levels.{crosses, insert_price, remove_price, remove_from_queue}
use qiu_market.Prelude.{◌≡◌, refl, arith, [], ◌∷◌, All, List, false, not, ◌==◌, ◌&&◌, ◌||◌}
use qiu_market.Prelude.Int.{ℤ, pos, ◌+ℤ◌, ◌-ℤ◌, wrap64, add64, sub64, neg64, rem64, int_eq}
use qiu_market.Prelude.Text.{Text, bytes}
use qiu_market.Prelude.Result.{Result, ok, err}
use qiu_market.Domain.{
  Order, default_btcusdt_market, sell, buy, limit, gtc, open_status, Side, checked_add,
  checked_mul_div, checked_mul_div_floor, checked_mul, checked_mul_div_ceil, fee_amount,
  power_of_ten_loop, is_power_of_ten, validate_market, quote_amount_floor, quote_amount_ceil,
  affordable_quantity,
}
use qiu_market.OrderBook.Types.{Book, MatchResult, zero_order, no_reason}
use qiu_market.OrderBook.Match.{
  match_order, front_order, best_opposing, executable_quantity, fill_maker, store_maker, fill_taker,
  after_fill, trade_with, match_round, match_loop, resting_quantity,
}
use qiu_market.OrderBook.PriceLaws.{IsStrict, price_in, insert_price_lem, remove_price_lem}
use qiu_market.OrderBook.Index.{IsIndex}
use qiu_market.OrderBook.MatchLaws.{match_order-Run, Run}
use qiu_market.OrderBook.FillLaws.{match_fills, IsFair, total_quantity, total_quote}

abbrev order_of : Text → Text → Side → ℤ → ℤ → Order
order_of id account side price quantity = record zero_order {
  id = id;
  account_id = account;
  market_id = bytes "BTC-USDT";
  side = side;
  order_type = limit;
  time_in_force = gtc;
  price = price;
  original_quantity = quantity;
  remaining_quantity = quantity;
  status = open_status;
}

abbrev ask1 : Order
ask1 = order_of (bytes "O-1") (bytes "bob") sell (pos 50_000_000_000) (pos 10_000)

abbrev ask2 : Order
ask2 = order_of (bytes "O-2") (bytes "carol") sell (pos 51_000_000_000) (pos 5_000)

abbrev taker_order : Order
taker_order = order_of (bytes "O-3") (bytes "alice") buy (pos 51_000_000_000) (pos 12_000)

abbrev resting : Book
resting = record {
  market = default_btcusdt_market;
  bids = [];
  asks = (pos 50_000_000_000, bytes "O-1" ∷ []) ∷ (pos 51_000_000_000, bytes "O-2" ∷ []) ∷ [];
  bid_prices = [];
  ask_prices = pos 50_000_000_000 ∷ pos 51_000_000_000 ∷ [];
  orders = (bytes "O-1", ask1) ∷ (bytes "O-2", ask2) ∷ [];
}

resting_keys : IsIndex resting.orders
resting_keys = (refl, omega arith, (refl, omega arith, tt))

abbrev value_or {ℓ} : {A : Type ℓ} → A → Result A → A
value_or z (ok a) = a
value_or z (err e) = z

unfoldable matched : Book × Order × MatchResult
matched =
    value_or (resting, taker_order, record { fills = []; stop_reason = no_reason })
      (match_order resting taker_order)

match_order-Run_example : Run resting taker_order [] (match_order resting taker_order)
match_order-Run_example = match_order-Run resting taker_order resting_keys refl

match_fills_example :
    All (IsFair default_btcusdt_market taker_order) matched.2.fills
    × (matched.1.filled_quantity ≡ pos 0 +ℤ total_quantity matched.2.fills)
    × (matched.1.spent_quote ≡ pos 0 +ℤ total_quote matched.2.fills)
    × IsIndex (matched.0.orders)
unfolding matched front_order best_opposing executable_quantity fill_maker store_maker fill_taker
    after_fill trade_with match_round match_loop resting_quantity match_order crosses insert_price
    remove_price remove_from_queue new_book may_not_rest add remove_level remove cancel would_cross
    update scan_queue scan_prices can_fill_fok checked_add checked_mul_div checked_mul_div_floor
    checked_mul checked_mul_div_ceil fee_amount power_of_ten_loop is_power_of_ten validate_market
    quote_amount_floor quote_amount_ceil affordable_quantity lookup contains lookup_or insert erase
    ◌+ℤ◌ ◌-ℤ◌ wrap64 add64 sub64 neg64 rem64
match_fills_example =
    match_fills resting matched.0 taker_order matched.1 matched.2 resting_keys
      (omega arith, omega arith) (omega arith, omega arith) refl

-- Both asks are hit: the first in full, the second in part.
two_fills : total_quantity matched.2.fills ≡ pos 12_000
unfolding matched front_order best_opposing executable_quantity fill_maker store_maker fill_taker
    after_fill trade_with match_round match_loop resting_quantity match_order crosses insert_price
    remove_price remove_from_queue new_book may_not_rest add remove_level remove cancel would_cross
    update scan_queue scan_prices can_fill_fok checked_add checked_mul_div checked_mul_div_floor
    checked_mul checked_mul_div_ceil fee_amount power_of_ten_loop is_power_of_ten validate_market
    quote_amount_floor quote_amount_ceil affordable_quantity lookup contains lookup_or insert erase
    ◌+ℤ◌ ◌-ℤ◌ wrap64 add64 sub64 neg64 rem64
two_fills = refl

abbrev asks : List ℤ
asks = pos 50_000_000_000 ∷ pos 51_000_000_000 ∷ []

asks_in_order : IsStrict false asks
asks_in_order = ((refl, tt), (tt, tt))

insert_price_lem_example :
    IsStrict false (insert_price asks (pos 50_500_000_000) false)
    × (price_in (pos 51_000_000_000) (insert_price asks (pos 50_500_000_000) false)
        ≡ (pos 50_500_000_000 == pos 51_000_000_000 || price_in (pos 51_000_000_000) asks))
insert_price_lem_example =
    insert_price_lem asks (pos 50_500_000_000) false (pos 51_000_000_000) asks_in_order

remove_price_lem_example :
    IsStrict false (remove_price asks (pos 50_000_000_000))
    × (price_in (pos 50_000_000_000) (remove_price asks (pos 50_000_000_000))
        ≡ (not (pos 50_000_000_000 == pos 50_000_000_000) && price_in (pos 50_000_000_000) asks))
remove_price_lem_example =
    remove_price_lem asks (pos 50_000_000_000) false (pos 50_000_000_000) asks_in_order
