-- ===== src/OrderBook/Snapshots.antt =====
-- Snapshot, FromSnapshot, Clone and Validate of trading/orderbook/orderbook.go.
use qiu_market.Prelude.{
  Bool, true, false, not, ◌&&◌, ◌||◌, none, some, List, [], ◌∷◌, ◌++◌, map, if◌then◌else◌, ◌==◌,
  length, nat_eq,
}
use qiu_market.Prelude.Int.{ℤ, pos, ltb_ℤ, leb_ℤ, int_eq}
use qiu_market.Prelude.Text.{Text, text_eq}
use qiu_market.Prelude.Dict.{Dict, lookup, lookup_or}
use qiu_market.Prelude.Result.{Result, ok, err, internal, ◌>>=◌, ◌>>◌, reject_if}
use qiu_market.Domain.{Side, MarketConfig, Order, buy, sell, side_eq, is_open}
use qiu_market.OrderBook.Types.{Book, BookSnapshot, zero_order}
use qiu_market.OrderBook.Ops.{new_book, add}

-- The orders of one side in priority order.
unfoldable pub side_orders : Dict Text Order → Dict ℤ (List Text) → List ℤ → List Order
side_orders orders levels [] = []
side_orders orders levels (price ∷ prices) =
    map (λ id. lookup_or zero_order id orders) (lookup_or [] price levels)
    ++ side_orders orders levels prices

-- Snapshot
unfoldable pub snapshot : Book → BookSnapshot
snapshot b = record {
  bids = side_orders b.orders b.bids b.bid_prices;
  asks = side_orders b.orders b.asks b.ask_prices;
}

-- One loop of FromSnapshot.
unfoldable pub add_all : Side → List Order → Book → Result Book
add_all side [] b = ok b
add_all side (o ∷ os) b = do
  reject_if (not (o.side == side)) internal
  b' ← add b o
  add_all side os b'

-- sort.SliceIsSorted over `>` (bids) or `<` (asks).
unfoldable pub slice_is_sorted : Bool → List ℤ → Bool
slice_is_sorted descending [] = true
slice_is_sorted descending (x ∷ []) = true
slice_is_sorted descending (x ∷ y ∷ ys) =
    not (if descending then ltb_ℤ x y else ltb_ℤ y x) && slice_is_sorted descending (y ∷ ys)

abbrev pub contains_text : Text → List Text → Bool
contains_text id [] = false
contains_text id (x ∷ xs) = x == id || contains_text id xs

-- The loop of `check` over a queue; it returns the orders seen so far.
unfoldable pub check_queue : Dict Text Order → Side → ℤ → List Text → List Text → Result (List Text)
check_queue orders side price [] seen = ok seen
check_queue orders side price (id ∷ ids) seen = do
  reject_if (contains_text id seen) internal
  elim (lookup id orders) [
    | none ↦ err internal
    | some o ↦ do
      reject_if
          (not (o.side == side)
            || not (o.price == price)
            || not (is_open o)
            || leb_ℤ o.remaining_quantity (pos 0))
          internal
      check_queue orders side price ids (id ∷ seen)
  ]

abbrev pub is_nil : List Text → Bool
is_nil [] = true
is_nil (x ∷ xs) = false

unfoldable pub check_prices :
    Dict Text Order → Side → Dict ℤ (List Text) → List ℤ → List Text → Result (List Text)
check_prices orders side levels [] seen = ok seen
check_prices orders side levels (price ∷ prices) seen = do
  let queue = lookup_or [] price levels
  reject_if (is_nil queue) internal
  seen' ← check_queue orders side price queue seen
  check_prices orders side levels prices seen'

-- Validate
unfoldable pub validate_book : Book → Result (Unit {0})
validate_book b = do
  reject_if (not (slice_is_sorted true b.bid_prices)) internal
  reject_if (not (slice_is_sorted false b.ask_prices)) internal
  seen ← check_prices b.orders buy b.bids b.bid_prices []
  seen' ← check_prices b.orders sell b.asks b.ask_prices seen
  reject_if (not (length seen' == length b.orders)) internal
  ok tt

-- FromSnapshot
unfoldable pub from_snapshot : MarketConfig → BookSnapshot → Result Book
from_snapshot m s = do
  b ← new_book m
  b' ← add_all buy s.bids b
  b'' ← add_all sell s.asks b'
  validate_book b''
  ok b''

-- Clone
unfoldable pub clone_book : Book → Result Book
clone_book b = from_snapshot b.market (snapshot b)
