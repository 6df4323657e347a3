-- ===== src/OrderBook/Match.antt =====
-- Match of trading/orderbook/orderbook.go. The loop takes fuel, one for each round; every round
-- that goes on trades at least one atom with a resting order, so the quantity that rests in the
-- book bounds the rounds.
use qiu_market.Prelude.{
  ℕ, zero, suc, ◌+◌, Bool, ◌&&◌, Option, none, some, List, [], ◌∷◌, ◌++◌, if◌then◌else◌, ◌==◌,
}
use qiu_market.Prelude.Int.{ℤ, pos, pos_part, ltb_ℤ, leb_ℤ, sub64, int_eq}
use qiu_market.Prelude.Text.{Text, text_eq, is_empty}
use qiu_market.Prelude.Dict.{Dict, lookup_or, insert}
use qiu_market.Prelude.Result.{
  Result, ok, err, invalid_book_order, internal, out_of_fuel, ◌>>=◌, ◌>>◌, reject_if,
}
use qiu_market.Domain.{
  Side, MarketConfig, Order, buy, sell, unknown_side, market, filled, partially_filled, type_eq,
  side_eq, checked_add, quote_amount_floor, affordable_quantity,
}
use qiu_market.OrderBook.Types.{
  Book, RawFill, MatchResult, StopReason, input_exhausted, no_liquidity, price_limit,
  budget_exhausted, self_trade, no_reason, zero_order,
}
use qiu_market.OrderBook.Levels.{crosses}
use qiu_market.OrderBook.Ops.{remove}

-- The first order of the first level. Go panics on an empty queue, which the book never keeps.
unfoldable pub front_order : Book → Dict ℤ (List Text) → List ℤ → Result (Option Order)
front_order b levels [] = ok none
front_order b levels (price ∷ prices) = elim (lookup_or [] price levels) [
  | [] ↦ err internal
  | id ∷ ids ↦ ok (some (lookup_or zero_order id b.orders))
]

-- bestOpposing
unfoldable pub best_opposing : Book → Side → Result (Option Order)
best_opposing b side = elim side [
  | buy ↦ front_order b b.asks b.ask_prices
  | sell ↦ front_order b b.bids b.bid_prices
  | unknown_side ↦ ok none
]

-- `incoming.Type == OrderTypeMarket && incoming.Side == SideBuy`
abbrev pub is_market_buy : Order → Bool
is_market_buy o = o.order_type == market && o.side == buy

-- executableQuantity
unfoldable pub executable_quantity : MarketConfig → Order → Order → Result (ℤ × StopReason)
executable_quantity m incoming maker =
    if is_market_buy incoming
    then (do
      affordable ← affordable_quantity m incoming.remaining_quote_budget maker.price
      ok (
          if affordable == pos 0
          then (pos 0, budget_exhausted)
          else (if ltb_ℤ maker.remaining_quantity affordable
              then (maker.remaining_quantity, no_reason)
              else (affordable, no_reason))))
    else ok (
        if leb_ℤ incoming.remaining_quantity (pos 0)
        then (pos 0, input_exhausted)
        else (if ltb_ℤ maker.remaining_quantity incoming.remaining_quantity
            then (maker.remaining_quantity, no_reason)
            else (incoming.remaining_quantity, no_reason)))

-- The maker after a fill, with the status that its remainder gives it.
unfoldable pub fill_maker : Order → ℤ → ℤ → ℕ → Result Order
fill_maker maker quantity quote_amount sequence = do
  let remaining = sub64 maker.remaining_quantity quantity
  filled_quantity ← checked_add maker.filled_quantity quantity
  spent_quote ← checked_add maker.spent_quote quote_amount
  ok (record maker {
    remaining_quantity = remaining;
    filled_quantity = filled_quantity;
    spent_quote = spent_quote;
    last_sequence = sequence;
    status = if remaining == pos 0 then filled else partially_filled;
  })

-- A filled maker leaves the book; one with a remainder keeps its place.
unfoldable pub store_maker : Book → Order → Result Book
store_maker b maker =
    if maker.remaining_quantity == pos 0
    then remove b maker
    else ok (record b { orders = insert maker.id maker b.orders })

unfoldable pub fill_taker : Order → ℤ → ℤ → Result Order
fill_taker incoming quantity quote_amount = do
  filled_quantity ← checked_add incoming.filled_quantity quantity
  spent_quote ← checked_add incoming.spent_quote quote_amount
  ok (
      if is_market_buy incoming
      then (record incoming {
        filled_quantity = filled_quantity;
        spent_quote = spent_quote;
        last_sequence = incoming.accepted_sequence;
        remaining_quote_budget = sub64 incoming.remaining_quote_budget quote_amount;
      })
      else (record incoming {
        filled_quantity = filled_quantity;
        spent_quote = spent_quote;
        last_sequence = incoming.accepted_sequence;
        remaining_quantity = sub64 incoming.remaining_quantity quantity;
      }))

-- The tests behind a fill: `some` reason ends the loop.
unfoldable pub after_fill : Order → Option StopReason
after_fill incoming =
    if is_market_buy incoming
    then (if incoming.remaining_quote_budget == pos 0 then some budget_exhausted else none)
    else (if incoming.remaining_quantity == pos 0 then some input_exhausted else none)

-- What one round of the loop does: it stops before a fill, or it trades and perhaps stops.
pub data Round : Type 0 where
  stopped : StopReason → Round
  traded : Book → Order → RawFill → Option StopReason → Round

-- The part of a round behind its first three tests.
unfoldable pub trade_with : Book → Order → Order → Result Round
trade_with b incoming maker = do
  executable ← executable_quantity b.market incoming maker
  if executable.0 == pos 0 then ok (stopped executable.1) else (do
    let quantity = executable.0
    quote_amount ← quote_amount_floor b.market maker.price quantity
    reject_if (leb_ℤ quote_amount (pos 0)) internal
    maker' ← fill_maker maker quantity quote_amount incoming.accepted_sequence
    b' ← store_maker b maker'
    incoming' ← fill_taker incoming quantity quote_amount
    ok (
        traded b' incoming'
          (record {
            maker_order_id = maker'.id;
            maker_account_id = maker'.account_id;
            maker_side = maker'.side;
            maker_remaining = maker'.remaining_quantity;
            price = maker'.price;
            quantity = quantity;
            quote_amount = quote_amount;
          })
          (after_fill incoming')))

unfoldable pub match_round : Book → Order → Result Round
match_round b incoming = do
  best ← best_opposing b incoming.side
  elim best [
    | none ↦ ok (stopped no_liquidity)
    | some maker ↦
        if crosses incoming.side incoming.order_type incoming.price maker.price
        then (if maker.account_id == incoming.account_id
            then ok (stopped self_trade)
            else trade_with b incoming maker)
        else ok (stopped price_limit)
  ]

unfoldable pub match_loop : ℕ → Book → Order → List RawFill → Result (Book × Order × MatchResult)
match_loop zero b incoming fills = err out_of_fuel
match_loop (suc fuel) b incoming fills = elim (match_round b incoming) [
  | err e ↦ err e
  | ok (stopped reason) ↦ ok (b, incoming, record { fills = fills; stop_reason = reason })
  | ok (traded b' incoming' fill (some reason)) ↦
      ok (b', incoming', record { fills = fills ++ fill ∷ []; stop_reason = reason })
  | ok (traded b' incoming' fill none) ↦ match_loop fuel b' incoming' (fills ++ fill ∷ [])
]

-- The quantity that rests in the book, over both sides.
unfoldable pub resting_quantity : Dict Text Order → ℕ
resting_quantity [] = 0
resting_quantity ((_, o) ∷ orders) = pos_part o.remaining_quantity + resting_quantity orders

-- Match
unfoldable pub match_order : Book → Order → Result (Book × Order × MatchResult)
match_order b incoming = do
  reject_if (is_empty incoming.id) invalid_book_order
  match_loop (suc (resting_quantity b.orders)) b incoming []
