-- ===== src/Domain/ArithLaws.antt =====
-- The checked arithmetic of trading/domain/types.go against the integers.
use native.Mathlib.Nat.{mul-add, lt_of_mul-lt-mul_right, mul-le-mul_right, div-mul-le_self}
use native.Mathlib.Decide.{dec_lt}
use qiu_market.Prelude.{
  zero, suc, ℕ, ◌+◌, ◌*◌, ◌/◌, ◌%◌, ◌≤◌, ◌<◌, ◌≡◌, Bool, ◌&&◌, ltb, leb, arith, if◌then◌else◌,
  nat_eq, refl, ◌==◌, ◌-◌, true, ◌^◌, suc, sym, ◌↔◌, ◌∙◌, ap,
}
use qiu_market.Prelude.Int.{
  ℤ, pos, negsuc, pos_part, neg_part, ◌+ℤ◌, IsInt64, max_word, word_mod, int_eq, sub64-nonneg,
  sub64-min, add64-pos, add64-mixed, add64-mixed', add64-neg,
}
use qiu_market.Prelude.Text.{tenfold, pow_pos}
use qiu_market.Prelude.Result.{ok, err, arithmetic_overflow, >>=-eq-ok}
use qiu_market.Domain.Arith.{
  checked_add, checked_mul_div, mul_high, mul_low, checked_mul_div_ceil, checked_mul_div_floor,
  fee_amount, power_of_ten_loop, is_power_of_ten,
}

abbrev pub in_int64 : ℤ → Bool
in_int64 a = leb (pos_part a) max_word && leb (neg_part a) (max_word + 1)

-- For two int64 values CheckedAdd returns their sum if it is an int64, and an overflow otherwise.
pub checked_add-exact :
    (a b : ℤ)
    → IsInt64 a
    → IsInt64 b
    → checked_add a b ≡ (if in_int64 (a +ℤ b) then ok (a +ℤ b) else err arithmetic_overflow)
unfolding checked_add ◌+ℤ◌
checked_add-exact (pos a) (pos b) ha hb =
    ground (arith, sub64-nonneg max_word b, add64-pos a b, ha, hb)
checked_add-exact (pos a) (negsuc b) ha hb = ground (arith, sub64-min b, add64-mixed a b, ha, hb)
checked_add-exact (negsuc a) (pos b) ha hb =
    ground (arith, sub64-nonneg max_word b, add64-mixed' b a, ha, hb)
checked_add-exact (negsuc a) (negsuc b) ha hb = ground (arith, sub64-min b, add64-neg a b, ha, hb)

words : (x y : ℕ) → mul_high x y * word_mod + mul_low x y ≡ x * y
words x y = omega arith

-- With a quotient that fits, the high word of the product is below the divisor.
high_lt : (p d : ℕ) → 0 < d → p / d ≤ max_word → p / word_mod < d
high_lt p d h q = grind arith

-- Of operands that are not negative and a positive denominator, the 128-bit product and division of
-- checkedMulDiv return the exact quotient and remainder, or an overflow if the quotient is no int64.
pub checked_mul_div-exact :
    (x y d : ℕ)
    → 0 < d
    → checked_mul_div (pos x) (pos y) (pos d) ≡ (
        if ltb max_word (x * y / d)
        then err arithmetic_overflow
        else ok (pos (x * y / d), x * y % d))
unfolding checked_mul_div
checked_mul_div-exact x y d h = rw (words x y) (ground (arith, high_lt (x * y) d))

pub floor-exact :
    (x y d : ℕ)
    → 0 < d
    → checked_mul_div_floor (pos x) (pos y) (pos d)
      ≡ (if ltb max_word (x * y / d) then err arithmetic_overflow else ok (pos (x * y / d)))
unfolding checked_mul_div_floor
floor-exact x y d h = rw (checked_mul_div-exact x y d h) (ground arith)

-- The least quotient that is not below the exact one.
abbrev pub ceil_div : ℕ → ℕ → ℕ
ceil_div p d = if p % d == 0 then p / d else p / d + 1

-- CheckedMulDivCeil returns the exact quotient rounded up, or an overflow if that is no int64, of
-- operands that are not negative and a positive denominator.
pub ceil-exact :
    (x y d : ℕ)
    → 0 < d
    → checked_mul_div_ceil (pos x) (pos y) (pos d) ≡ (
        if ltb max_word (ceil_div (x * y) d)
        then err arithmetic_overflow
        else ok (pos (ceil_div (x * y) d)))
unfolding checked_mul_div_ceil
ceil-exact x y d h = rw (checked_mul_div-exact x y d h) (ground (arith, add64-pos (x * y / d) 1))

pub ceil_div_bounds : (p d : ℕ) → 0 < d → (p ≤ ceil_div p d * d) × (ceil_div p d * d < p + d)
ceil_div_bounds p d h = grind arith

pub mul_div_signs :
    (a b d : ℤ) {r : ℤ × ℕ}
    → checked_mul_div a b d ≡ ok r
    → (x : ℕ) × (y : ℕ) × (z : ℕ) × (a ≡ pos x) × (b ≡ pos y) × (d ≡ pos z) × (0 < z)
unfolding checked_mul_div
mul_div_signs (pos x) (pos y) (pos z) e = (x, y, z, refl, refl, refl, ground arith)
mul_div_signs (negsuc x) b d e = ground arith
mul_div_signs (pos x) (negsuc y) d e = ground arith
mul_div_signs (pos x) (pos y) (negsuc z) e = ground arith

fee_lt : (x rate : ℕ) → rate < 10000 → 0 < x → x * rate / 10000 < x
fee_lt x rate hr h = grind arith

-- Of a positive amount and a rate below 10000 basis points FeeAmount takes the rate's share,
-- rounded down, which is less than the amount.
pub fee_amount-lt :
    (x rate : ℕ)
    → rate < 10000
    → 0 < x
    → x ≤ max_word
    → (fee_amount (pos x) (pos rate) ≡ ok (pos (x * rate / 10000))) × (x * rate / 10000 < x)
unfolding fee_amount
fee_amount-lt x rate hr h hx =
    (ground (arith, floor-exact x rate 10000, fee_lt x rate hr h), fee_lt x rate hr h)

-- Quotients that are rounded down and up, against one that is rounded up.
quotients_add : (f a b d x y z : ℕ) → f * d ≤ x → a * d < y + d → x + y ≤ z → z ≤ b * d → f + a ≤ b
quotients_add f a b d x y z hf ha hz hb =
    let total : (f + a) * d < (b + 1) * d = omega arith in
    omega (arith, lt_of_mul-lt-mul_right d {m = f + a} {n = b + 1} total)

-- The sum of what a fill costs and what its remainder costs, rounded up, is covered by the whole
-- rounded up; the fill's price may be the better one.
pub ceil_div_covers :
    (p p' r q d : ℕ)
    → 0 < d
    → p' ≤ p
    → q ≤ r
    → p' * q / d + ceil_div (p * (r - q)) d ≤ ceil_div (p * r) d
ceil_div_covers p p' r q d h hp hq =
    let low = ceil_div_bounds (p * (r - q)) d h in
    let high = ceil_div_bounds (p * r) d h in
    let best : p' * q ≤ p * q = mul-le-mul_right q hp in
    let fill : p' * q / d * d ≤ p' * q = div-mul-le_self (p' * q) d in
    let parts : p * q + p * (r - q) ≡ p * r =
      sym (mul-add p q (r - q)) ∙ ap (λ (n : ℕ). p * n) (omega arith) in
    quotients_add _ _ _ d (p * q) (p * (r - q)) (p * r) (omega arith) low.1 (omega arith) high.0

power_loop_of_pow : (k fuel v : ℕ) → v ≡ 10 ^ k → v ≤ fuel → power_of_ten_loop fuel v ≡ true
unfolding power_of_ten_loop
power_loop_of_pow k zero v e h = absurd (omega (arith, pow_pos k))
power_loop_of_pow zero (suc fuel) v e h = ground arith
power_loop_of_pow (suc k) (suc fuel) v e h =
    ground (arith, tenfold k, pow_pos k, power_loop_of_pow k fuel (v / 10))

pow_step : (v : ℕ) → v % 10 ≡ 0 → (k : ℕ) × (v / 10 ≡ 10 ^ k) → (k : ℕ) × (v ≡ 10 ^ k)
pow_step v h (k, e) = (suc k, omega (arith, tenfold k))

pow_of_power_loop : (fuel v : ℕ) → 0 < v → power_of_ten_loop fuel v ≡ true → (k : ℕ) × (v ≡ 10 ^ k)
unfolding power_of_ten_loop
pow_of_power_loop zero v h e = ground arith
pow_of_power_loop (suc fuel) v h e = elim (dec_lt 1 v) [
  | yes p ↦
      pow_step v (ground arith) (pow_of_power_loop fuel (v / 10) (ground arith) (ground arith))
  | no p ↦ (0, omega arith)
]

-- isPowerOfTen holds of exactly the powers of ten.
pub is_power_of_ten_iff : (v : ℤ) → (is_power_of_ten v ≡ true) ↔ ((k : ℕ) × (v ≡ pos (10 ^ k)))
unfolding is_power_of_ten
is_power_of_ten_iff (negsuc n) = (λ h. absurd (ground arith), λ h. cc (h.1))
is_power_of_ten_iff (pos zero) = (λ h. absurd (ground arith), λ h. ground (arith, pow_pos h.0, h.1))
is_power_of_ten_iff (pos (suc n)) = (
  λ h. let (k, e) = pow_of_power_loop (suc n) (suc n) (omega arith) (ground arith) in (k, ap pos e),
  λ h. ground (arith, power_loop_of_pow h.0 (suc n) (suc n), h.1),
)

-- What CheckedAdd returns is the sum, and an int64.
pub checked_add_sound :
    (a b : ℤ) {c : ℤ} → IsInt64 a → IsInt64 b → checked_add a b ≡ ok c → (c ≡ a +ℤ b) × IsInt64 c
checked_add_sound a b ha hb e = ground (arith, checked_add-exact a b ha hb)

-- What rounding division returns is an int64.
pub floor-IsInt64 : (a b d : ℤ) {v : ℤ} → checked_mul_div_floor a b d ≡ ok v → IsInt64 v
unfolding checked_mul_div_floor
floor-IsInt64 a b d {v} e =
    let (r, c, _) = >>=-eq-ok (checked_mul_div a b d) (λ r. ok r.0) e in
    let (x, y, z, ex, ey, ez, hz) = mul_div_signs a b d c in
    let k : checked_mul_div_floor (pos x) (pos y) (pos z) ≡ ok v = rw (← ex, ← ey, ← ez) e in
    let w = floor-exact x y z hz in ground arith

pub ceil-IsInt64 : (a b d : ℤ) {v : ℤ} → checked_mul_div_ceil a b d ≡ ok v → IsInt64 v
unfolding checked_mul_div_ceil
ceil-IsInt64 a b d {v} e =
    let (r, c, _) = >>=-eq-ok (checked_mul_div a b d) _ e in
    let (x, y, z, ex, ey, ez, hz) = mul_div_signs a b d c in
    let k : checked_mul_div_ceil (pos x) (pos y) (pos z) ≡ ok v = rw (← ex, ← ey, ← ez) e in
    let w = ceil-exact x y z hz in ground arith
