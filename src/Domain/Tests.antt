-- ===== src/Domain/Tests.antt =====
-- The laws of trading/domain/types.go at values of the default market.
use qiu_market.Prelude.{
  ◌≡◌, refl, arith, ◌*◌, ◌/◌, ◌%◌, ◌<◌, ◌≤◌, ◌↔◌, true, ℕ, if◌then◌else◌, ltb, ◌^◌, ◌-◌, ◌+◌,
}
use qiu_market.Prelude.Int.{pos, ◌+ℤ◌, max_word, add64, rem64, wrap64, sub64, ◌-ℤ◌}
use qiu_market.Prelude.Result.{ok, err, arithmetic_overflow}
use qiu_market.Domain.Market.{
  default_btcusdt_market, quote_amount_ceil, quote_amount_floor, affordable_quantity,
}
use qiu_market.Domain.Arith.{
  checked_add, checked_mul_div, checked_mul_div_ceil, fee_amount, is_power_of_ten,
  checked_mul_div_floor,
}
use qiu_market.Domain.ArithLaws.{
  checked_add-exact, checked_mul_div-exact, ceil-exact, fee_amount-lt, is_power_of_ten_iff,
  ceil_div, in_int64,
}
use qiu_market.Domain.MarketLaws.{reserve_covers_fill, affordable_is_affordable}

checked_add-exact_example : checked_add (pos 9223372036854775807) (pos 1) ≡ (
    if in_int64 (pos 9223372036854775807 +ℤ pos 1)
    then ok (pos 9223372036854775807 +ℤ pos 1)
    else err arithmetic_overflow)
checked_add-exact_example =
    checked_add-exact (pos 9223372036854775807) (pos 1) (omega arith, omega arith)
      (omega arith, omega arith)

checked_mul_div-exact_example :
    checked_mul_div (pos 50_000_000_000) (pos 20_000) (pos 100_000_000) ≡ (
      if ltb max_word (50_000_000_000 * 20_000 / 100_000_000)
      then err arithmetic_overflow
      else ok (pos (50_000_000_000 * 20_000 / 100_000_000), 50_000_000_000 * 20_000 % 100_000_000))
checked_mul_div-exact_example =
    checked_mul_div-exact 50_000_000_000 20_000 100_000_000 (omega arith)

ceil-exact_example : checked_mul_div_ceil (pos 50_000_010_000) (pos 1_300) (pos 100_000_000) ≡ (
    if ltb max_word (ceil_div (50_000_010_000 * 1_300) 100_000_000)
    then err arithmetic_overflow
    else ok (pos (ceil_div (50_000_010_000 * 1_300) 100_000_000)))
ceil-exact_example = ceil-exact 50_000_010_000 1_300 100_000_000 (omega arith)

fee_amount-lt_example :
    (fee_amount (pos 5_000_000) (pos 20) ≡ ok (pos (5_000_000 * 20 / 10000)))
    × (5_000_000 * 20 / 10000 < 5_000_000)
fee_amount-lt_example = fee_amount-lt 5_000_000 20 (omega arith) (omega arith) (omega arith)

is_power_of_ten_iff_example :
    (is_power_of_ten (pos 1_000_000) ≡ true) ↔ ((k : ℕ) × (pos 1_000_000 ≡ pos (10 ^ k)))
is_power_of_ten_iff_example = is_power_of_ten_iff (pos 1_000_000)

reserve_covers_fill_example :
    (s : ℕ) × (h' : ℕ) × (quote_amount_floor default_btcusdt_market (pos 49_999_990_000) (pos 700)
      ≡ ok (pos s))
    × (quote_amount_ceil default_btcusdt_market (pos 50_000_010_000) (pos (1_300 - 700))
        ≡ ok (pos h'))
    × (s + h' ≤ 650_001)
unfolding quote_amount_ceil checked_mul_div_ceil checked_mul_div add64 wrap64 ◌+ℤ◌
reserve_covers_fill_example =
    reserve_covers_fill default_btcusdt_market 50_000_010_000 49_999_990_000 1_300 700 650_001
      100_000_000 refl (omega arith) (omega arith) (omega arith) refl

affordable_is_affordable_example :
    (n : ℕ) × (pos 19_900 ≡ pos n) × (n % 100 ≡ 0) × (50_000_010_000 * n / 100_000_000 ≤ 10_000_000)
unfolding affordable_quantity checked_mul_div_floor checked_mul_div rem64 sub64 wrap64 ◌-ℤ◌
affordable_is_affordable_example =
    affordable_is_affordable default_btcusdt_market 10_000_000 50_000_010_000 100_000_000 100 refl
      refl (omega arith) (omega arith) (omega arith) refl
