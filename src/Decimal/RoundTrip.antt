-- ===== src/Decimal/RoundTrip.antt =====
-- Format of trading/decimal/decimal.go against Parse.
use native.Mathlib.Nat.{le-div_iff_mul-le, div-mul-le_self, mod-lt, div-add-mod', div-le_self}
use qiu_market.Decimal.{
  precision_loop, scale_precision, digits_only, parse_uint, parse_parts, parse, trim_zeros, format,
}
use qiu_market.Prelude.{
  ℕ, zero, suc, ◌+◌, ◌-◌, ◌*◌, ◌/◌, ◌%◌, ◌^◌, ◌≤◌, ◌<◌, true, false, [], ◌∷◌, ◌++◌, replicate,
  length, ltb, eqb, ◌≡◌, refl, ap, ◌∙◌, arith, Bool-cases, inl, inr,
}
use qiu_market.Prelude.Int.{pos, ltb_ℤ, max_word, word_mod}
use qiu_market.Prelude.Result.{ok}
use qiu_market.Prelude.Text.{
  Text, is_empty, decimal, zero_padded, digits_value, IsDigits, decimal-IsDigits,
  zero_padded-IsDigits, length-zero_padded, digits_value-decimal, digits_value-zero_padded, tenfold,
  pow_pos,
}
use qiu_market.Decimal.Strings.{
  IsDigits-all, split_dots-whole, split_dots-fraction, trim_zeros-append, Trimmed,
  trim_zeros-Trimmed, trimmed_value, bad_edges-whole, bad_edges-fraction,
}

precision_loop-power :
    (k fuel v q : ℕ) → v ≡ 10 ^ k → v ≤ fuel → precision_loop fuel v q ≡ ok (q + k)
unfolding precision_loop
precision_loop-power k zero v q e h = absurd (omega (arith, pow_pos k))
precision_loop-power zero (suc fuel) v q e h = ground arith
precision_loop-power (suc k) (suc fuel) v q e h =
    ground (arith, tenfold k, pow_pos k, precision_loop-power k fuel (v / 10) (q + 1))

-- The precision of a power of ten is its exponent.
scale_precision-power : (k : ℕ) → scale_precision (pos (10 ^ k)) ≡ ok k
unfolding scale_precision
scale_precision-power k =
    ground (arith, pow_pos k, precision_loop-power k (10 ^ k) (10 ^ k) 0 refl (omega arith))

parse_uint-value : (t : Text) (n : ℕ) → digits_value 0 t ≡ n → n ≤ max_word → parse_uint t ≡ ok n
unfolding parse_uint
parse_uint-value t n e h =
    let fits : ltb n word_mod ≡ true = ground arith in rw (parse_uint, e, fits) refl

below : (a s : ℕ) → a ≤ max_word → a / s ≤ max_word
below a s b = let less = div-le_self a s in omega (arith, less)

whole_fits : (a s : ℕ) → 0 < s → a ≤ max_word → ltb (max_word / s) (a / s) ≡ false
whole_fits a s h b =
    let low = div-mul-le_self a s in
    let fits : a / s ≤ max_word / s = (le-div_iff_mul-le h).1 (omega (arith, low)) in ground arith

parse_parts-whole :
    (a s p : ℕ)
    → 0 < s
    → a ≤ max_word
    → a % s ≡ 0
    → parse_parts (decimal (a / s)) [] p s ≡ ok (pos a)
unfolding parse_parts
parse_parts-whole a s p h b none_left =
    let read =
      parse_uint-value (decimal (a / s)) (a / s) (digits_value-decimal (a / s)) (below a s b) in
    let total = div-add-mod' a s in
    rw (parse_parts, read, whole_fits a s h b) (ap (λ (n : ℕ). ok (pos n)) (omega (arith, total)))

parse_parts-fraction :
    (a s p : ℕ) (fs : Text)
    → 0 < s
    → a ≤ max_word
    → is_empty fs ≡ false
    → digits_value 0 (fs ++ replicate (p - length fs) 48) ≡ a % s
    → parse_parts (decimal (a / s)) fs p s ≡ ok (pos a)
unfolding parse_parts
parse_parts-fraction a s p fs h b some_left e =
    let read =
      parse_uint-value (decimal (a / s)) (a / s) (digits_value-decimal (a / s)) (below a s b) in
    let total = div-add-mod' a s in
    let rest =
      parse_uint-value (fs ++ replicate (p - length fs) 48) (a % s) e (omega (arith, total)) in
    let sum_fits : ltb (max_word - a % s) (a / s * s) ≡ false = ground (arith, total) in
    rw (parse_parts, read, whole_fits a s h b, some_left, rest, sum_fits)
      (ap (λ (n : ℕ). ok (pos n)) (omega (arith, total)))

digits_only-digits : (t : Text) → IsDigits t → is_empty t ≡ false → digits_only t ≡ true
unfolding digits_only
digits_only-digits t h q = rw (IsDigits-all t h, q) refl

parse-whole :
    (ws : Text) (s p : ℕ)
    → scale_precision (pos s) ≡ ok p
    → IsDigits ws
    → is_empty ws ≡ false
    → parse ws (pos s) ≡ parse_parts ws [] p s
unfolding parse
parse-whole ws s p e h q =
    let parts = split_dots-whole ws h in
    rw (parse, e, q, bad_edges-whole ws h, parts, parts, q, digits_only-digits ws h q) refl

dotted_nonempty : (ws fs : Text) → is_empty (ws ++ 46 ∷ fs) ≡ false
dotted_nonempty [] fs = refl
dotted_nonempty (c ∷ cs) fs = refl

parse-fraction :
    (ws fs : Text) (s p : ℕ)
    → scale_precision (pos s) ≡ ok p
    → IsDigits ws
    → is_empty ws ≡ false
    → IsDigits fs
    → is_empty fs ≡ false
    → length fs ≤ p
    → parse (ws ++ 46 ∷ fs) (pos s) ≡ parse_parts ws fs p s
unfolding parse
parse-fraction ws fs s p e h q k r short =
    let fits : ltb p (length fs) ≡ false = ground arith in
    let parts = split_dots-fraction ws fs h k in
    rw
      (
        parse,
        e,
        dotted_nonempty ws fs,
        bad_edges-fraction ws fs h q k r,
        parts,
        parts,
        q,
        digits_only-digits ws h q,
        r,
        digits_only-digits fs k r,
        fits,
      )
      refl

format-whole :
    (a k : ℕ)
    → eqb (a % 10 ^ k) 0 ≡ true
    → format (pos a) (pos (10 ^ k)) ≡ ok (decimal (a / 10 ^ k))
unfolding format
format-whole a k whole =
    let sign : ltb_ℤ (pos a) (pos 0) ≡ false = ground arith in
    elim (Bool-cases (eqb k 0)) [
      | inl e ↦ rw (format, scale_precision-power k, sign, e) refl
      | inr e ↦ rw (format, scale_precision-power k, sign, e, whole) refl
    ]

-- The digits of the fraction behind the dot.
abbrev cut_fraction : ℕ → ℕ → Text
cut_fraction a k = trim_zeros (zero_padded k (a % 10 ^ k))

fraction_left : (a k : ℕ) → eqb (a % 10 ^ k) 0 ≡ false → is_empty (cut_fraction a k) ≡ false
fraction_left a k part = elim (Bool-cases (is_empty (cut_fraction a k))) [
  | inr e ↦ e
  | inl e ↦
      let value = digits_value-zero_padded k (a % 10 ^ k) in
      let nothing = trimmed_value (zero_padded k (a % 10 ^ k)) e in absurd (ground arith)
]

some_precision : (a k : ℕ) → eqb (a % 10 ^ k) 0 ≡ false → eqb k 0 ≡ false
some_precision a zero part = absurd (ground arith)
some_precision a (suc k) part = ground arith

format-fraction :
    (a k : ℕ)
    → eqb (a % 10 ^ k) 0 ≡ false
    → format (pos a) (pos (10 ^ k)) ≡ ok (decimal (a / 10 ^ k) ++ 46 ∷ cut_fraction a k)
unfolding format trim_zeros
format-fraction a k part =
    let sign : ltb_ℤ (pos a) (pos 0) ≡ false = ground arith in
    let left = fraction_left a k part in
    let dot : trim_zeros (46 ∷ zero_padded k (a % 10 ^ k)) ≡ 46 ∷ cut_fraction a k = rw left refl in
    let some_left : is_empty (trim_zeros (46 ∷ zero_padded k (a % 10 ^ k))) ≡ false = rw dot refl in
    rw (format, scale_precision-power k, sign, some_precision a k part, part)
      (ap ok (
        trim_zeros-append (decimal (a / 10 ^ k)) (46 ∷ zero_padded k (a % 10 ^ k)) some_left
        ∙ ap (λ (u : Text). decimal (a / 10 ^ k) ++ u) dot))

fraction_value :
    (p n : ℕ) (t r : Text)
    → Trimmed t r
    → length t ≡ p
    → digits_value 0 t ≡ n
    → digits_value 0 (r ++ replicate (p - length r) 48) ≡ n
fraction_value p n t r k width value =
    let l = k.length_eq in
    let zeros : p - length r ≡ k.zeros = omega (arith, l, width) in
    rw zeros (ap (digits_value 0) k.completed ∙ value)

parse-fraction_text :
    (a k : ℕ)
    → a ≤ max_word
    → eqb (a % 10 ^ k) 0 ≡ false
    → parse (decimal (a / 10 ^ k) ++ 46 ∷ cut_fraction a k) (pos (10 ^ k)) ≡ ok (pos a)
parse-fraction_text a k b part =
    let zp = zero_padded k (a % 10 ^ k) in
    let cut = trim_zeros-Trimmed zp (zero_padded-IsDigits k (a % 10 ^ k)) in
    let left = fraction_left a k part in
    let whole = decimal-IsDigits (a / 10 ^ k) in
    let some_width = some_precision a k part in
    let width : length zp ≡ k =
      length-zero_padded k (a % 10 ^ k) (ground arith) (mod-lt a (pow_pos k)) in
    let l = cut.length_eq in
    parse-fraction (decimal (a / 10 ^ k)) (cut_fraction a k) (10 ^ k) k (scale_precision-power k)
      whole.0 whole.1 cut.digits left (omega (arith, l, width))
    ∙ parse_parts-fraction a (10 ^ k) k (cut_fraction a k) (pow_pos k) b left (
        fraction_value k (a % 10 ^ k) zp (cut_fraction a k) cut width
          (digits_value-zero_padded k (a % 10 ^ k)))

-- Format succeeds on atoms that are not negative and a scale that is a power of ten, and Parse
-- reads the same atoms back from the text that it returns. The atoms are an int64 value.
pub format_parses :
    (a k : ℕ)
    → a ≤ max_word
    → (t : Text) × (format (pos a) (pos (10 ^ k)) ≡ ok t) × (parse t (pos (10 ^ k)) ≡ ok (pos a))
format_parses a k b = elim (Bool-cases (eqb (a % 10 ^ k) 0)) [
  | inl whole ↦
      (let digits = decimal-IsDigits (a / 10 ^ k) in
        (
          decimal (a / 10 ^ k),
          format-whole a k whole,
          parse-whole (decimal (a / 10 ^ k)) (10 ^ k) k (scale_precision-power k) digits.0 digits.1
              ∙ parse_parts-whole a (10 ^ k) k (pow_pos k) b (ground arith),
        ))
  | inr part ↦ (
    decimal (a / 10 ^ k) ++ 46 ∷ cut_fraction a k,
    format-fraction a k part,
    parse-fraction_text a k b part,
  )
]
