-- ===== src/Domain/MarketLaws.antt =====
-- The market's conversions between base and quote in trading/domain/types.go.
use native.Mathlib.Nat.{
  div-add-mod, mul-mod_left, div-mul-le_self, le-div_iff_mul-le, le_of_mul-le-mul_right,
}
use qiu_market.Prelude.{ℕ, ◌+◌, ◌-◌, ◌*◌, ◌/◌, ◌%◌, ◌≤◌, ◌<◌, ◌≡◌, arith, if◌then◌else◌, ltb}
use qiu_market.Prelude.Int.{ℤ, pos, max_word, sub64-nonneg, rem64-pos}
use qiu_market.Prelude.Result.{ok, err, arithmetic_overflow}
use qiu_market.Domain.Types.{MarketConfig}
use qiu_market.Domain.Market.{quote_amount_floor, quote_amount_ceil, affordable_quantity}
use qiu_market.Domain.ArithLaws.{ceil_div, ceil_div_covers, floor-exact, ceil-exact}

-- If a buyer's reserve for a whole order is `h`, at limit price `p` and quantity `r`, then a fill
-- of `q` of it at a price `p'` that is no worse costs an amount `s`, the reserve of the remainder is
-- an amount `h'`, and `s + h'` does not exceed `h`.
pub reserve_covers_fill :
    (m : MarketConfig) (p p' r q h d : ℕ)
    → m.base_scale ≡ pos d
    → 0 < d
    → p' ≤ p
    → q ≤ r
    → quote_amount_ceil m (pos p) (pos r) ≡ ok (pos h)
    → (s : ℕ) × (h' : ℕ) × (quote_amount_floor m (pos p') (pos q) ≡ ok (pos s))
      × (quote_amount_ceil m (pos p) (pos (r - q)) ≡ ok (pos h'))
      × (s + h' ≤ h)
unfolding quote_amount_floor quote_amount_ceil
reserve_covers_fill m p p' r q h d ed hd hp hq e =
    let cover = ceil_div_covers p p' r q d hd hp hq in
    (
      p' * q / d,
      ceil_div (p * (r - q)) d,
      rw ed (ground (arith, floor-exact p' q d hd, ceil-exact p r d hd)),
      rw ed (ground (arith, ceil-exact p (r - q) d hd, ceil-exact p r d hd)),
      ground (arith, ceil-exact p r d hd),
    )

affordable-exact :
    (m : MarketConfig) (budget p d step : ℕ)
    → m.base_scale ≡ pos d
    → m.quantity_step ≡ pos step
    → 0 < p
    → affordable_quantity m (pos budget) (pos p) ≡ (
        if ltb max_word (budget * d / p)
        then err arithmetic_overflow
        else ok (pos (budget * d / p - budget * d / p % step)))
unfolding affordable_quantity
affordable-exact m budget p d step ed es hp =
    rw (ed, es, floor-exact budget d p hp)
      (ground (
        arith,
        rem64-pos (budget * d / p) step,
        sub64-nonneg (budget * d / p) (budget * d / p % step),
      ))

aligned : (n step : ℕ) → 0 < step → (n - n % step) % step ≡ 0
aligned n step h =
    let e : n - n % step ≡ n / step * step = omega (arith, div-add-mod n step) in
    rw e (mul-mod_left (n / step) step)

costs_within : (budget p d n : ℕ) → 0 < d → 0 < p → n ≤ budget * d / p → p * n / d ≤ budget
costs_within budget p d n hd hp h =
    let whole : n * p ≤ budget * d = (le-div_iff_mul-le {k = p} {x = n} {y = budget * d} hp).0 h in
    let back : p * n / d * d ≤ budget * d = omega (arith, div-mul-le_self (p * n) d) in
    le_of_mul-le-mul_right back hd

-- What AffordableQuantity returns is a multiple of the quantity step, and settling it at that price
-- costs no more than the budget.
pub affordable_is_affordable :
    (m : MarketConfig) (budget p d step : ℕ) {q : ℤ}
    → m.base_scale ≡ pos d
    → m.quantity_step ≡ pos step
    → 0 < d
    → 0 < p
    → 0 < step
    → affordable_quantity m (pos budget) (pos p) ≡ ok q
    → (n : ℕ) × (q ≡ pos n) × (n % step ≡ 0) × (p * n / d ≤ budget)
unfolding affordable_quantity
affordable_is_affordable m budget p d step ed es hd hp hs e =
    let n : ℕ = budget * d / p - budget * d / p % step in
    (
      n,
      ground (arith, affordable-exact m budget p d step ed es hp),
      aligned (budget * d / p) step hs,
      costs_within budget p d n hd hp (omega arith),
    )
