-- ===== src/Exchange/Validate.antt =====
-- validate, clone and compaction in trading/exchange/state.go.
use qiu_market.Prelude.{
  ℕ, zero, suc, ◌-◌, Bool, true, false, not, ◌&&◌, ◌||◌, none, some, List, [], ◌∷◌, ◌++◌,
  if◌then◌else◌, ◌==◌, length, drop, leb, nat_eq,
}
use qiu_market.Prelude.Int.{ℤ, pos, ltb_ℤ, int_eq}
use qiu_market.Prelude.Text.{Text, bytes, text_eq, is_empty, has_prefix}
use qiu_market.Prelude.Dict.{Dict, lookup, lookup_or, insert}
use qiu_market.Prelude.Result.{Result, ok, err, internal, ◌>>=◌, ◌>>◌, reject_if}
use qiu_market.Domain.{
  MarketConfig, Order, Trade, IdempotencyKey, fund, buy, side_eq, kind_eq, type_eq, force_eq,
  status_eq, is_open, checked_add, quote_amount_ceil, validate_market, validate_key,
}
use qiu_market.OrderBook.{snapshot, validate_book, from_snapshot}
use qiu_market.Ledger.{
  Balance, BalanceKey, balance_key_eq, validate_ledger, compact, balance, balances_of, user_held,
  text_in,
}
use qiu_market.Exchange.Types.{State, RequestRecord}

abbrev pub same_bool : Bool → Bool → Bool
same_bool true b = b
same_bool false b = not b

-- Go's `==` on domain.Order.
abbrev pub same_order : Order → Order → Bool
same_order a b =
    a.id == b.id
    && a.client_order_id == b.client_order_id
    && a.account_id == b.account_id
    && a.market_id == b.market_id
    && a.side == b.side
    && a.order_type == b.order_type
    && a.time_in_force == b.time_in_force
    && same_bool a.post_only b.post_only
    && a.price == b.price
    && a.original_quantity == b.original_quantity
    && a.remaining_quantity == b.remaining_quantity
    && a.filled_quantity == b.filled_quantity
    && a.original_quote_budget == b.original_quote_budget
    && a.remaining_quote_budget == b.remaining_quote_budget
    && a.spent_quote == b.spent_quote
    && a.held_asset == b.held_asset
    && a.held_amount == b.held_amount
    && a.status == b.status
    && a.accepted_sequence == b.accepted_sequence
    && a.last_sequence == b.last_sequence
    && a.reject_reason == b.reject_reason

-- The loop over the orders of the book's snapshot.
unfoldable pub check_book_orders : Dict Text Order → List Order → Result (Unit {0})
check_book_orders orders [] = ok tt
check_book_orders orders (o ∷ os) = elim (lookup o.id orders) [
  | none ↦ err internal
  | some known ↦ do reject_if (not (same_order known o)) internal; check_book_orders orders os
]

abbrev pub order_ids : List Order → List Text
order_ids [] = []
order_ids (o ∷ os) = o.id ∷ order_ids os

-- The loop over the order index: open exactly if in the book, and no negative quantity.
unfoldable pub check_index : List Text → Dict Text Order → Result (Unit {0})
check_index in_book [] = ok tt
check_index in_book ((id, o) ∷ os) = do
  reject_if (not (same_bool (is_open o) (text_in id in_book))) internal
  reject_if
      (ltb_ℤ o.remaining_quantity (pos 0)
        || ltb_ℤ o.filled_quantity (pos 0)
        || ltb_ℤ o.remaining_quote_budget (pos 0)
        || ltb_ℤ o.spent_quote (pos 0))
      internal
  check_index in_book os

-- What an open order has to hold: the asset and the amount.
unfoldable pub expected_hold : MarketConfig → Order → Result (Text × ℤ)
expected_hold m o =
    if o.side == buy
    then (do amount ← quote_amount_ceil m o.price o.remaining_quantity; ok (m.quote_asset, amount))
    else ok (m.base_asset, o.remaining_quantity)

-- heldKey; a BalanceKey whose account is the account identifier.
abbrev pub held_key : Text → Text → BalanceKey
held_key account_id asset = record { account = account_id; asset = asset }

-- The loop that sums the holds of the open orders.
unfoldable pub sum_holds :
    MarketConfig → Dict Text Order → Dict BalanceKey ℤ → Result (Dict BalanceKey ℤ)
sum_holds m [] held = ok held
sum_holds m ((id, o) ∷ os) held =
    if is_open o
    then (do
      expected ← expected_hold m o
      reject_if (not (o.held_asset == expected.0) || not (o.held_amount == expected.1)) internal
      let key = held_key o.account_id o.held_asset
      total ← checked_add (lookup_or (pos 0) key held) o.held_amount
      sum_holds m os (insert key total held))
    else (do
      reject_if (not (o.held_amount == pos 0) || not (is_empty o.held_asset)) internal
      sum_holds m os held)

unfoldable pub check_held_balances : State → Dict BalanceKey ℤ → Result (Unit {0})
check_held_balances s [] = ok tt
check_held_balances s ((k, expected) ∷ held) = do
  reject_if (not (balance s.ledger (user_held k.account) k.asset == expected)) internal
  check_held_balances s held

-- strings.HasSuffix and strings.TrimSuffix
abbrev pub has_suffix : Text → Text → Bool
has_suffix s suffix = leb (length suffix) (length s) && drop (length s - length suffix) s == suffix

abbrev pub take : ℕ → Text → Text
take zero s = []
take (suc n) [] = []
take (suc n) (c ∷ cs) = c ∷ take n cs

abbrev pub trim_suffix : Text → Text → Text
trim_suffix s suffix = if has_suffix s suffix then take (length s - length suffix) s else s

-- strings.TrimPrefix
abbrev pub trim_prefix : Text → Text → Text
trim_prefix s p = if has_prefix s p then drop (length p) s else s

-- The loop over the ledger's balances: no hold without an order.
unfoldable pub check_ledger_holds : Dict BalanceKey ℤ → List Balance → Result (Unit {0})
check_ledger_holds held [] = ok tt
check_ledger_holds held (b ∷ bs) =
    if not (has_prefix b.account (bytes "user:")) || not (has_suffix b.account (bytes ":held"))
    then check_ledger_holds held bs
    else (do
      let account_id = trim_suffix (trim_prefix b.account (bytes "user:")) (bytes ":held")
      reject_if (not (lookup_or (pos 0) (held_key account_id b.asset) held == b.amount)) internal
      check_ledger_holds held bs)

unfoldable pub check_trades : Text → List Trade → List Text → Result (Unit {0})
check_trades market_id [] seen = ok tt
check_trades market_id (t ∷ ts) seen = do
  reject_if (is_empty t.id || not (t.market_id == market_id)) internal
  reject_if (text_in t.id seen) internal
  check_trades market_id ts (t.id ∷ seen)

unfoldable pub check_requests : Text → Dict IdempotencyKey RequestRecord → Result (Unit {0})
check_requests market_id [] = ok tt
check_requests market_id ((k, r) ∷ rs) = do
  validate_key k
  reject_if (not (k.market_id == market_id) || is_empty r.fingerprint) internal
  check_requests market_id rs

-- validate
unfoldable pub validate_state : State → Result (Unit {0})
validate_state s = do
  validate_market s.market
  validate_book s.book
  validate_ledger s.ledger
  let book = snapshot s.book
  let in_book = book.bids ++ book.asks
  check_book_orders s.orders in_book
  check_index (order_ids in_book) s.orders
  held ← sum_holds s.market s.orders []
  check_held_balances s held
  check_ledger_holds held (balances_of s.ledger)
  check_trades s.market.id s.trades []
  check_requests s.market.id s.requests

-- clone: the copies of the maps are the maps; the book is rebuilt from its snapshot.
unfoldable pub clone_state : State → Result State
clone_state s = do book ← from_snapshot s.market (snapshot s.book); ok (record s { book = book })

-- ephemeralDemoMakerAccount
abbrev pub ephemeral_demo_maker_account : Text
ephemeral_demo_maker_account = bytes "system:demo-maker"

unfoldable pub drop_closed_demo_orders : Dict Text Order → Dict Text Order
drop_closed_demo_orders [] = []
drop_closed_demo_orders ((id, o) ∷ os) =
    let rest = drop_closed_demo_orders os in
    if o.account_id == ephemeral_demo_maker_account && not (is_open o) then rest else (id, o) ∷ rest

unfoldable pub drop_demo_requests :
    Dict IdempotencyKey RequestRecord → Dict IdempotencyKey RequestRecord
drop_demo_requests [] = []
drop_demo_requests ((k, r) ∷ rs) =
    let rest = drop_demo_requests rs in
    if k.account_id == ephemeral_demo_maker_account && not (k.operation == fund)
    then rest
    else (k, r) ∷ rest

-- compactEphemeralSystemHistory
unfoldable pub compact_ephemeral_system_history : State → State
compact_ephemeral_system_history s = record s {
  orders = drop_closed_demo_orders s.orders;
  requests = drop_demo_requests s.requests;
}

-- compactForSchema
unfoldable pub compact_for_schema : State → ℕ → Result State
compact_for_schema s version = do
  let s' = if leb 4 version then compact_ephemeral_system_history s else s
  if leb 5 version then (do l ← compact s'.ledger; ok (record s' { ledger = l })) else ok s'
