-- ===== src/OrderBook/Types.antt =====
-- The data of trading/orderbook/orderbook.go.
use qiu_market.Prelude.{◌≡◌, ◌↔◌, Bool, true, false, List, [], arith, Eq}
use qiu_market.Prelude.Int.{ℤ, pos}
use qiu_market.Prelude.Text.{Text}
use qiu_market.Prelude.Dict.{Dict}
use qiu_market.Domain.{
  Side, MarketConfig, Order, unknown_side, unknown_type, unknown_force, no_status,
}

-- StopReason; `no_reason` is the empty string, its zero value.
pub data StopReason : Type 0 where
  input_exhausted no_liquidity price_limit budget_exhausted self_trade no_reason : StopReason

abbrev pub reason_beq : StopReason → StopReason → Bool
reason_beq input_exhausted input_exhausted = true
reason_beq no_liquidity no_liquidity = true
reason_beq price_limit price_limit = true
reason_beq budget_exhausted budget_exhausted = true
reason_beq self_trade self_trade = true
reason_beq no_reason no_reason = true
reason_beq _ _ = false

pub reason_beq_iff : (a b : StopReason) → (reason_beq a b ≡ true) ↔ (a ≡ b)
reason_beq_iff a b = ground arith

instance abbrev pub reason_eq : Eq StopReason
reason_eq = record { beq = reason_beq; beq_iff = reason_beq_iff }

pub record RawFill : Type 0 where
  pub maker_order_id : Text
  pub maker_account_id : Text
  pub maker_side : Side
  pub maker_remaining : ℤ
  pub price : ℤ
  pub quantity : ℤ
  pub quote_amount : ℤ

pub record MatchResult : Type 0 where
  pub fills : List RawFill
  pub stop_reason : StopReason

pub record BookSnapshot : Type 0 where
  pub bids : List Order
  pub asks : List Order

pub record Book : Type 0 where
  pub market : MarketConfig
  pub bids : Dict ℤ (List Text)
  pub asks : Dict ℤ (List Text)
  pub bid_prices : List ℤ
  pub ask_prices : List ℤ
  pub orders : Dict Text Order

-- domain.Order{}, which Go reads from a map that lacks the key.
abbrev pub zero_order : Order
zero_order = record {
  id = [];
  client_order_id = [];
  account_id = [];
  market_id = [];
  side = unknown_side;
  order_type = unknown_type;
  time_in_force = unknown_force;
  post_only = false;
  price = pos 0;
  original_quantity = pos 0;
  remaining_quantity = pos 0;
  filled_quantity = pos 0;
  original_quote_budget = pos 0;
  remaining_quote_budget = pos 0;
  spent_quote = pos 0;
  held_asset = [];
  held_amount = pos 0;
  status = no_status;
  accepted_sequence = 0;
  last_sequence = 0;
  reject_reason = [];
}
