-- ===== src/Domain/Market.antt =====
-- Market of trading/domain/types.go: validation and conversions between base and quote.
use qiu_market.Prelude.{not, ◌||◌, ◌==◌, nat_eq}
use qiu_market.Prelude.Int.{ℤ, pos, ltb_ℤ, leb_ℤ, sub64, rem64, int_eq}
use qiu_market.Prelude.Text.{text_eq, bytes, is_empty}
use qiu_market.Prelude.Result.{Result, ok, invalid_market, ◌>>=◌, ◌>>◌, reject_if}
use qiu_market.Domain.Types.{MarketConfig}
use qiu_market.Domain.Arith.{checked_mul_div_floor, checked_mul_div_ceil, is_power_of_ten}

-- Market.Validate
unfoldable pub validate_market : MarketConfig → Result (Unit {0})
validate_market m = do
  reject_if
      (is_empty m.id
        || is_empty m.base_asset
        || is_empty m.quote_asset
        || m.base_asset == m.quote_asset)
      invalid_market
  reject_if (not (is_power_of_ten m.base_scale) || not (is_power_of_ten m.quote_scale))
      invalid_market
  reject_if
      (leb_ℤ m.price_tick (pos 0)
        || leb_ℤ m.quantity_step (pos 0)
        || leb_ℤ m.min_quantity (pos 0)
        || leb_ℤ m.min_notional (pos 0))
      invalid_market
  reject_if (not (rem64 m.min_quantity m.quantity_step == pos 0)) invalid_market
  reject_if
      (ltb_ℤ m.maker_fee_bps (pos 0)
        || leb_ℤ (pos 10000) m.maker_fee_bps
        || ltb_ℤ m.taker_fee_bps (pos 0)
        || leb_ℤ (pos 10000) m.taker_fee_bps)
      invalid_market
  reject_if (m.configuration_epoch == 0) invalid_market
  ok tt

-- DefaultBTCUSDTMarket
abbrev pub default_btcusdt_market : MarketConfig
default_btcusdt_market = record {
  id = bytes "BTC-USDT";
  base_asset = bytes "BTC";
  quote_asset = bytes "USDT";
  base_scale = pos 100_000_000;
  quote_scale = pos 1_000_000;
  price_tick = pos 10_000;
  quantity_step = pos 100;
  min_quantity = pos 1_000;
  min_notional = pos 5_000_000;
  maker_fee_bps = pos 10;
  taker_fee_bps = pos 20;
  configuration_epoch = 1;
}

-- Market.QuoteAmountFloor
unfoldable pub quote_amount_floor : MarketConfig → ℤ → ℤ → Result ℤ
quote_amount_floor m price quantity = checked_mul_div_floor price quantity m.base_scale

-- Market.QuoteAmountCeil
unfoldable pub quote_amount_ceil : MarketConfig → ℤ → ℤ → Result ℤ
quote_amount_ceil m price quantity = checked_mul_div_ceil price quantity m.base_scale

-- Market.AffordableQuantity
unfoldable pub affordable_quantity : MarketConfig → ℤ → ℤ → Result ℤ
affordable_quantity m quote_budget price = do
  quantity ← checked_mul_div_floor quote_budget m.base_scale price
  ok (sub64 quantity (rem64 quantity m.quantity_step))
