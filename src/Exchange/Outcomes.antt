-- ===== src/Exchange/Outcomes.antt =====
-- Cancellations in trading/exchange: who may cancel, and what becomes of the order and its hold.
use qiu_market.OrderBook.{cancel}
use qiu_market.Ledger.Moves.{held_balance_key, available_key}
use qiu_market.Ledger.{Ledger, BalanceKey, balance_key_eq}
use qiu_market.Prelude.{ℕ, [], ◌≡◌, some, ◌==◌, if◌then◌else◌, false, none}
use qiu_market.Prelude.Int.{pos, leb_ℤ, int_eq, ◌-ℤ◌, ◌+ℤ◌}
use qiu_market.Prelude.Text.{Text, text_eq}
use qiu_market.Prelude.Dict.{lookup, lookup_or}
use qiu_market.Prelude.Result.{Result, ok}
use qiu_market.Domain.{Order, canceled, buy, side_eq}
use qiu_market.Exchange.Types.{State}

-- The order as a cancellation leaves it.
abbrev pub canceled_order : Order → ℕ → Order
canceled_order o sequence = record o {
  status = canceled;
  last_sequence = sequence;
  held_asset = [];
  held_amount = pos 0;
}

-- The asset that a market holds for an order.
abbrev pub side_asset : State → Order → Text
side_asset s o = if o.side == buy then s.market.quote_asset else s.market.base_asset

-- What a cancellation of an order does: the record of the order is closed, the order leaves the
-- book, and its positive held amount moves from the held to the available balance of its account.
pub record Canceled (s s' : State) (sequence : ℕ) (o : Order) : Type 0 where
  pub closed : lookup o.id s'.orders ≡ some (canceled_order o sequence)
  pub taken_out : (x : Order) × (cancel s.book o.id ≡ ok (s'.book, x))
  pub off_book :
      (id : Text)
      → lookup id s'.book.orders ≡ (if o.id == id then none else lookup id s.book.orders)
  pub held_some : leb_ℤ o.held_amount (pos 0) ≡ false
  pub freed :
      (k : BalanceKey)
      → lookup_or (pos 0) k s'.ledger.balances ≡ (
          if held_balance_key o.account_id (side_asset s o) == k
          then lookup_or (pos 0) k s.ledger.balances -ℤ o.held_amount
          else (if available_key o.account_id (side_asset s o) == k
              then lookup_or (pos 0) k s.ledger.balances +ℤ o.held_amount
              else lookup_or (pos 0) k s.ledger.balances))
