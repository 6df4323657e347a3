-- ===== src/OrderBook/Levels.antt =====
-- The price lists and queues of trading/orderbook/orderbook.go.
use qiu_market.Prelude.{Bool, true, false, Option, none, some, List, [], ◌∷◌, if◌then◌else◌, ◌==◌}
use qiu_market.Prelude.Int.{ℤ, leb_ℤ, int_eq}
use qiu_market.Prelude.Text.{Text, text_eq}
use qiu_market.Domain.{Side, OrderType, buy, sell, unknown_side, market, type_eq}

-- crosses
unfoldable pub crosses : Side → OrderType → ℤ → ℤ → Bool
crosses side order_type incoming_price maker_price =
    if order_type == market then true else elim side [
      | buy ↦ leb_ℤ maker_price incoming_price
      | sell ↦ leb_ℤ incoming_price maker_price
      | unknown_side ↦ false
    ]

-- The predicate that insertPrice hands to sort.Search.
abbrev pub at_or_behind : Bool → ℤ → ℤ → Bool
at_or_behind descending x price = if descending then leb_ℤ x price else leb_ℤ price x

-- insertPrice: in front of the first price for which the predicate holds, the index that
-- sort.Search returns on a sorted list; nothing if that price is the new one.
unfoldable pub insert_price : List ℤ → ℤ → Bool → List ℤ
insert_price [] price descending = price ∷ []
insert_price (x ∷ xs) price descending =
    if at_or_behind descending x price
    then (if x == price then x ∷ xs else price ∷ x ∷ xs)
    else x ∷ insert_price xs price descending

-- removePrice
unfoldable pub remove_price : List ℤ → ℤ → List ℤ
remove_price [] price = []
remove_price (x ∷ xs) price = if x == price then xs else x ∷ remove_price xs price

-- The search for an order in its queue, and the queue without it.
unfoldable pub remove_from_queue : Text → List Text → Option (List Text)
remove_from_queue id [] = none
remove_from_queue id (x ∷ xs) =
    if x == id
    then some xs
    else elim (remove_from_queue id xs) [ none ↦ none | some rest ↦ some (x ∷ rest) ]
