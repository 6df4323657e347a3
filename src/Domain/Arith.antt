-- ===== src/Domain/Arith.antt =====
-- The checked arithmetic at the end of trading/domain/types.go.
use qiu_market.Prelude.{
  ℕ, zero, suc, ◌+◌, ◌*◌, ◌/◌, ◌%◌, Bool, true, false, ◌&&◌, ◌||◌, ltb, leb, if◌then◌else◌, ◌==◌,
  nat_eq,
}
use qiu_market.Prelude.Int.{
  ℤ, pos, negsuc, pos_part, ltb_ℤ, leb_ℤ, add64, sub64, max_word, word_mod, int_eq,
}
use qiu_market.Prelude.Result.{Result, ok, err, arithmetic_overflow, ◌>>=◌, ◌>>◌, reject_if}

abbrev pub max_int64 : ℤ
max_int64 = pos max_word

abbrev pub min_int64 : ℤ
min_int64 = negsuc max_word

unfoldable pub checked_add : ℤ → ℤ → Result ℤ
checked_add a b =
    if (ltb_ℤ (pos 0) b && ltb_ℤ (sub64 max_int64 b) a)
      || (ltb_ℤ b (pos 0) && ltb_ℤ a (sub64 min_int64 b))
    then err arithmetic_overflow
    else ok (add64 a b)

-- bits.Mul64: the high and the low word of the product.
abbrev pub mul_high : ℕ → ℕ → ℕ
mul_high a b = a * b / word_mod

abbrev pub mul_low : ℕ → ℕ → ℕ
mul_low a b = a * b % word_mod

-- checkedMulDiv: the quotient and the remainder; bits.Div64 divides the two words.
unfoldable pub checked_mul_div : ℤ → ℤ → ℤ → Result (ℤ × ℕ)
checked_mul_div a b denominator = do
  reject_if (ltb_ℤ a (pos 0) || ltb_ℤ b (pos 0) || leb_ℤ denominator (pos 0)) arithmetic_overflow
  let high = mul_high (pos_part a) (pos_part b)
  let low = mul_low (pos_part a) (pos_part b)
  let divisor = pos_part denominator
  reject_if (leb divisor high) arithmetic_overflow
  let quotient = (high * word_mod + low) / divisor
  let remainder = (high * word_mod + low) % divisor
  reject_if (ltb max_word quotient) arithmetic_overflow
  ok (pos quotient, remainder)

unfoldable pub checked_mul_div_floor : ℤ → ℤ → ℤ → Result ℤ
checked_mul_div_floor a b denominator = do r ← checked_mul_div a b denominator; ok r.0

unfoldable pub checked_mul : ℤ → ℤ → Result ℤ
checked_mul a b = checked_mul_div_floor a b (pos 1)

unfoldable pub checked_mul_div_ceil : ℤ → ℤ → ℤ → Result ℤ
checked_mul_div_ceil a b denominator = do
  r ← checked_mul_div a b denominator
  if r.1 == 0
      then ok r.0
      else (if r.0 == max_int64 then err arithmetic_overflow else ok (add64 r.0 (pos 1)))

unfoldable pub fee_amount : ℤ → ℤ → Result ℤ
fee_amount amount rate_bps = do
  reject_if (ltb_ℤ amount (pos 0) || ltb_ℤ rate_bps (pos 0) || leb_ℤ (pos 10000) rate_bps)
      arithmetic_overflow
  if amount == pos 0 || rate_bps == pos 0
      then ok (pos 0)
      else checked_mul_div_floor amount rate_bps (pos 10000)

-- The loop of isPowerOfTen; the value falls at every round.
unfoldable pub power_of_ten_loop : (fuel value : ℕ) → Bool
power_of_ten_loop zero value = false
power_of_ten_loop (suc fuel) value =
    let rest = power_of_ten_loop fuel (value / 10) in
    if ltb 1 value then (if value % 10 == 0 then rest else false) else true

-- isPowerOfTen
unfoldable pub is_power_of_ten : ℤ → Bool
is_power_of_ten value =
    if leb_ℤ value (pos 0) then false else power_of_ten_loop (pos_part value) (pos_part value)
