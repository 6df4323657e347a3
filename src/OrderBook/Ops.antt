-- ===== src/OrderBook/Ops.antt =====
-- The operations of trading/orderbook/orderbook.go but for matching and snapshots. An error drops
-- the book: the exchange works on a copy that it discards when an operation fails.
use qiu_market.Prelude.{
  Bool, true, false, not, ◌||◌, none, some, List, [], ◌∷◌, ◌++◌, if◌then◌else◌, ◌==◌, nat_eq,
}
use qiu_market.Prelude.Int.{ℤ, pos, leb_ℤ, rem64, sub64, int_eq}
use qiu_market.Prelude.Text.{Text, text_eq, is_empty}
use qiu_market.Prelude.Dict.{Dict, lookup, lookup_or, contains, insert, erase}
use qiu_market.Prelude.Result.{
  Result, ok, err, invalid_book_order, duplicate_order, book_order_not_found, internal, ◌>>=◌, ◌>>◌,
  reject_if, relabel,
}
use qiu_market.Domain.{
  Side, MarketConfig, Order, buy, sell, unknown_side, limit, gtc, type_eq, force_eq, side_eq,
  is_open, validate_market,
}
use qiu_market.OrderBook.Types.{Book, zero_order}
use qiu_market.OrderBook.Levels.{crosses, insert_price, remove_price, remove_from_queue}

-- New
unfoldable pub new_book : MarketConfig → Result Book
new_book m = do
  relabel invalid_book_order (validate_market m)
  ok (record { market = m; bids = []; asks = []; bid_prices = []; ask_prices = []; orders = [] })

-- The first condition of Add.
unfoldable pub may_not_rest : MarketConfig → Order → Bool
may_not_rest m o =
    is_empty o.id
    || not (o.order_type == limit)
    || not (o.time_in_force == gtc)
    || not (o.market_id == m.id)
    || leb_ℤ o.price (pos 0)
    || not (rem64 o.price m.price_tick == pos 0)
    || leb_ℤ o.remaining_quantity (pos 0)
    || not (rem64 o.remaining_quantity m.quantity_step == pos 0)
    || not (is_open o)

-- A price list with the price of a new level.
abbrev pub with_price : Bool → ℤ → Dict ℤ (List Text) → List ℤ → List ℤ
with_price descending price levels prices =
    if contains price levels then prices else insert_price prices price descending

-- Add
unfoldable pub add : Book → Order → Result Book
add b o = do
  reject_if (may_not_rest b.market o) invalid_book_order
  reject_if (contains o.id b.orders) duplicate_order
  elim o.side [
    | buy ↦ ok (record b {
      orders = insert o.id o b.orders;
      bid_prices = with_price true o.price b.bids b.bid_prices;
      bids = insert o.price (lookup_or [] o.price b.bids ++ o.id ∷ []) b.bids;
    })
    | sell ↦ ok (record b {
      orders = insert o.id o b.orders;
      ask_prices = with_price false o.price b.asks b.ask_prices;
      asks = insert o.price (lookup_or [] o.price b.asks ++ o.id ∷ []) b.asks;
    })
    | unknown_side ↦ err invalid_book_order
  ]

-- What remove leaves of one side: its levels and its prices.
unfoldable pub remove_level :
    Order → Dict ℤ (List Text) → List ℤ → Result (Dict ℤ (List Text) × List ℤ)
remove_level o levels prices = elim (lookup o.price levels) [
  | none ↦ err internal
  | some queue ↦ elim (remove_from_queue o.id queue) [
    | none ↦ err internal
    | some [] ↦ ok (erase o.price levels, remove_price prices o.price)
    | some (x ∷ xs) ↦ ok (insert o.price (x ∷ xs) levels, prices)
  ]
]

-- remove
unfoldable pub remove : Book → Order → Result Book
remove b o = elim o.side [
  | buy ↦ do
    r ← remove_level o b.bids b.bid_prices
    ok (record b { bids = r.0; bid_prices = r.1; orders = erase o.id b.orders })
  | sell ↦ do
    r ← remove_level o b.asks b.ask_prices
    ok (record b { asks = r.0; ask_prices = r.1; orders = erase o.id b.orders })
  | unknown_side ↦ err invalid_book_order
]

-- Cancel
unfoldable pub cancel : Book → Text → Result (Book × Order)
cancel b id = elim (lookup id b.orders) [
  | none ↦ err book_order_not_found
  | some o ↦ do b' ← remove b o; ok (b', o)
]

-- WouldCross
unfoldable pub would_cross : Book → Side → ℤ → Bool
would_cross b side price = elim side [
  | buy ↦ elim b.ask_prices [ [] ↦ false | best ∷ _ ↦ leb_ℤ best price ]
  | sell ↦ elim b.bid_prices [ [] ↦ false | best ∷ _ ↦ leb_ℤ price best ]
  | unknown_side ↦ false
]

-- Update
unfoldable pub update : Book → Order → Result Book
update b o = elim (lookup o.id b.orders) [
  | none ↦ err book_order_not_found
  | some current ↦ do
    reject_if
        (not (current.side == o.side)
          || not (current.price == o.price)
          || not (current.account_id == o.account_id)
          || not (current.accepted_sequence == o.accepted_sequence)
          || not (is_open o)
          || leb_ℤ o.remaining_quantity (pos 0))
        invalid_book_order
    ok (record b { orders = insert o.id o b.orders })
]

-- What one pass over a queue in CanFillFOK leaves: an answer, or the quantity still to fill.
pub data Scan : Type 0 where
  answer : Bool → Scan
  missing : ℤ → Scan

unfoldable pub scan_queue : Dict Text Order → Text → List Text → ℤ → Scan
scan_queue orders account_id [] remaining = missing remaining
scan_queue orders account_id (id ∷ ids) remaining =
    let maker = lookup_or zero_order id orders in
    let rest = scan_queue orders account_id ids (sub64 remaining maker.remaining_quantity) in
    if maker.account_id == account_id
    then answer false
    else (if leb_ℤ remaining maker.remaining_quantity then answer true else rest)

unfoldable pub scan_prices :
    Dict Text Order → Text → Side → ℤ → Dict ℤ (List Text) → List ℤ → ℤ → Bool
scan_prices orders account_id side limit_price levels [] remaining = false
scan_prices orders account_id side limit_price levels (price ∷ prices) remaining =
    if crosses side limit limit_price price
    then elim (scan_queue orders account_id (lookup_or [] price levels) remaining) [
      | answer a ↦ a
      | missing left ↦ scan_prices orders account_id side limit_price levels prices left
    ]
    else false

-- CanFillFOK
unfoldable pub can_fill_fok : Book → Text → Side → ℤ → ℤ → Result Bool
can_fill_fok b account_id side limit_price quantity =
    if leb_ℤ quantity (pos 0) then ok false else elim side [
      | buy ↦ ok (scan_prices b.orders account_id buy limit_price b.asks b.ask_prices quantity)
      | sell ↦ ok (scan_prices b.orders account_id sell limit_price b.bids b.bid_prices quantity)
      | unknown_side ↦ err invalid_book_order
    ]
