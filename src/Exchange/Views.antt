-- ===== src/Exchange/Views.antt =====
-- The views of trading/exchange/exchange.go: depth, trades, and the projection of a command.
use qiu_market.Prelude.{
  ℕ, zero, suc, ◌+◌, Bool, not, ◌&&◌, ◌||◌, Option, none, some, List, [], ◌∷◌, ◌++◌, if◌then◌else◌,
  ◌==◌, length, eqb,
}
use qiu_market.Prelude.Int.{ℤ, pos, pos_part, ltb_ℤ, leb_ℤ, int_eq}
use qiu_market.Prelude.Text.{Text, text_eq, is_empty}
use qiu_market.Prelude.Dict.{Dict, lookup}
use qiu_market.Prelude.Result.{Result, ok, internal, ◌>>=◌, ◌>>◌, reject_if}
use qiu_market.Domain.{Order, Trade, Event, Outcome, Command, checked_add, is_open}
use qiu_market.OrderBook.{snapshot}
use qiu_market.Ledger.{text_ltb, sort, user_balance, text_in}
use qiu_market.Store.{BalanceProjection, Projection}
use qiu_market.Exchange.Types.{State}

-- PriceLevelView
pub record PriceLevelView : Type 0 where
  pub price : ℤ
  pub quantity : ℤ
  pub order_count : ℕ

-- OrderBookView
pub record OrderBookView : Type 0 where
  pub market_id : Text
  pub sequence : ℕ
  pub bids : List PriceLevelView
  pub asks : List PriceLevelView

-- The loop of aggregateLevels: `level` is the last of the result, `done` the ones before it.
unfoldable pub aggregate_from :
    ℕ → List PriceLevelView → PriceLevelView → List Order → Result (List PriceLevelView)
aggregate_from limit done level [] = ok (done ++ level ∷ [])
aggregate_from limit done level (o ∷ os) =
    if level.price == o.price
    then (do
      quantity ← checked_add level.quantity o.remaining_quantity
      aggregate_from limit done
          (record level { quantity = quantity; order_count = level.order_count + 1 }) os)
    else (if eqb (length done + 1) limit then ok (done ++ level ∷ []) else (do
      quantity ← checked_add (pos 0) o.remaining_quantity
      aggregate_from limit (done ++ level ∷ [])
          (record { price = o.price; quantity = quantity; order_count = 1 }) os))

-- aggregateLevels
unfoldable pub aggregate_levels : List Order → ℕ → Result (List PriceLevelView)
aggregate_levels [] limit = ok []
aggregate_levels (o ∷ os) zero = ok []
aggregate_levels (o ∷ os) (suc limit) = do
  quantity ← checked_add (pos 0) o.remaining_quantity
  aggregate_from (suc limit) [] (record { price = o.price; quantity = quantity; order_count = 1 })
      os

-- Exchange.Depth
unfoldable pub depth : State → ℤ → Result OrderBookView
depth s levels = do
  let limit = if leb_ℤ levels (pos 0) then 20 else pos_part levels
  let book = snapshot s.book
  bids ← aggregate_levels book.bids limit
  asks ← aggregate_levels book.asks limit
  ok (record { market_id = s.market.id; sequence = s.sequence; bids = bids; asks = asks })

-- Exchange.Trades: newest first, of one account or of all.
unfoldable pub trades_from : List Trade → Text → List Trade → List Trade
trades_from [] account_id acc = acc
trades_from (t ∷ ts) account_id acc = trades_from ts account_id (
    if not (is_empty account_id)
      && not (t.buyer_account_id == account_id)
      && not (t.seller_account_id == account_id)
    then acc
    else t ∷ acc)

unfoldable pub trades_of : State → Text → List Trade
trades_of s account_id = trades_from s.trades account_id []

unfoldable pub filter_orders : Dict Text Order → Text → Bool → List Order
filter_orders [] account_id open_only = []
filter_orders ((_, o) ∷ os) account_id open_only =
    let rest = filter_orders os account_id open_only in
    if not (is_empty account_id) && not (o.account_id == account_id)
    then rest
    else (if open_only && not (is_open o) then rest else o ∷ rest)

-- Newest first, then by descending identifier.
abbrev pub order_before : Order → Order → Bool
order_before a b =
    if eqb a.accepted_sequence b.accepted_sequence
    then text_ltb b.id a.id
    else leb_ℤ (pos (b.accepted_sequence + 1)) (pos a.accepted_sequence)

-- Exchange.Orders
unfoldable pub orders_of : State → Text → Bool → List Order
orders_of s account_id open_only = sort order_before (filter_orders s.orders account_id open_only)

-- A Go map to struct{}, as a list without repetition.
abbrev pub add_text : Text → List Text → List Text
add_text id ids = if text_in id ids then ids else id ∷ ids

abbrev pub add_nonempty : Text → List Text → List Text
add_nonempty id ids = if is_empty id then ids else add_text id ids

-- What the loop of buildProjection gathers from the events.
pub record Gathered : Type 0 where
  pub order_ids : List Text
  pub accounts : List Text
  pub trades : List Trade

abbrev pub gather_trade : Option Trade → Gathered → Gathered
gather_trade none g = g
gather_trade (some t) g = record {
  order_ids = add_text t.taker_order_id (add_text t.maker_order_id g.order_ids);
  accounts = add_text t.seller_account_id (add_text t.buyer_account_id g.accounts);
  trades = g.trades ++ t ∷ [];
}

unfoldable pub gather : List Event → Gathered → Gathered
gather [] g = g
gather (e ∷ es) g = gather es (
    gather_trade e.trade (record g {
      order_ids = add_nonempty e.order_id g.order_ids;
      accounts = add_nonempty e.account_id g.accounts;
    }))

unfoldable pub known_orders : Dict Text Order → List Text → List Order
known_orders orders [] = []
known_orders orders (id ∷ ids) = elim (lookup id orders) [
  | none ↦ known_orders orders ids
  | some o ↦ o ∷ known_orders orders ids
]

abbrev pub non_empty : List Text → List Text
non_empty [] = []
non_empty (x ∷ xs) = if is_empty x then non_empty xs else x ∷ non_empty xs

unfoldable pub project_balance : State → Text → Text → Result BalanceProjection
project_balance s account_id asset = do
  let b = user_balance s.ledger account_id asset
  reject_if (ltb_ℤ b.0 (pos 0) || ltb_ℤ b.1 (pos 0)) internal
  ok (record { account_id = account_id; asset = asset; available = b.0; held = b.1 })

unfoldable pub project_balances : State → List Text → Result (List BalanceProjection)
project_balances s [] = ok []
project_balances s (a ∷ as') = do
  base ← project_balance s a s.market.base_asset
  quote ← project_balance s a s.market.quote_asset
  rest ← project_balances s as'
  ok (base ∷ quote ∷ rest)

-- buildProjection
unfoldable pub build_projection : State → Command → Outcome → Result Projection
build_projection s c result = do
  let g = gather result.events (record {
    order_ids = add_nonempty result.order_id [];
    accounts = c.request_key.account_id ∷ [];
    trades = [];
  })
  balances ← project_balances s (sort text_ltb (non_empty g.accounts))
  ok (record {
    orders = sort (λ (a b : Order). text_ltb a.id b.id) (known_orders s.orders g.order_ids);
    trades = sort (λ (a b : Trade). text_ltb a.id b.id) g.trades;
    balances = balances;
  })
