-- ===== src/Decimal.antt =====
-- trading/decimal/decimal.go: decimal strings and integer atoms.
mod Strings
mod RoundTrip
mod Tests
use qiu_market.Prelude.{
  ℕ, zero, suc, ◌+◌, ◌-◌, ◌*◌, ◌/◌, ◌%◌, Bool, true, false, not, ◌&&◌, ◌||◌, List, [], ◌∷◌, ◌++◌,
  replicate, length, ltb, leb, eqb, if◌then◌else◌, ◌==◌, nat_eq,
}
use qiu_market.Prelude.Int.{ℤ, pos, pos_part, ltb_ℤ, leb_ℤ, max_word, word_mod}
use qiu_market.Prelude.Text.{Text, is_empty, decimal, zero_padded, digits_value}
use qiu_market.Prelude.Result.{Result, ok, err, invalid_decimal, ◌>>=◌, ◌>>◌, reject_if}

-- The loop of scalePrecision; the scale falls at every round.
unfoldable pub precision_loop : (fuel scale precision : ℕ) → Result ℕ
precision_loop zero scale precision = err invalid_decimal
precision_loop (suc fuel) scale precision =
    let rest = precision_loop fuel (scale / 10) (precision + 1) in
    if ltb 1 scale then (if scale % 10 == 0 then rest else err invalid_decimal) else ok precision

-- scalePrecision
unfoldable pub scale_precision : ℤ → Result ℕ
scale_precision scale = do
  reject_if (leb_ℤ scale (pos 0)) invalid_decimal
  precision_loop (pos_part scale) (pos_part scale) 0

abbrev pub is_digit : ℕ → Bool
is_digit c = leb 48 c && leb c 57

abbrev pub all_digits : Text → Bool
all_digits [] = true
all_digits (c ∷ cs) = is_digit c && all_digits cs

-- digitsOnly
unfoldable pub digits_only : Text → Bool
digits_only value = all_digits value && not (is_empty value)

-- The white space of ASCII, which strings.TrimSpace trims.
abbrev pub is_space : ℕ → Bool
is_space c = eqb c 32 || (leb 9 c && leb c 13)

abbrev pub last_is_space : Text → Bool
last_is_space [] = false
last_is_space (c ∷ []) = is_space c
last_is_space (c ∷ d ∷ cs) = last_is_space (d ∷ cs)

-- `strings.TrimSpace(value) != value`, or a sign in front.
abbrev pub bad_edges : Text → Bool
bad_edges [] = false
bad_edges (c ∷ cs) = is_space c || last_is_space (c ∷ cs) || eqb c b'+' || eqb c b'-'

-- strings.Split(value, "."): the part in front of the first dot, and the others.
unfoldable pub split_dots : Text → Text × List Text
split_dots [] = ([], [])
split_dots (c ∷ cs) =
    let (part, parts) = split_dots cs in
    if eqb c b'.' then ([], part ∷ parts) else (c ∷ part, parts)

-- strconv.ParseUint(s, 10, 64) on digits.
unfoldable pub parse_uint : Text → Result ℕ
parse_uint digits =
    let v = digits_value 0 digits in if ltb v word_mod then ok v else err invalid_decimal

-- The end of Parse: the whole and the fraction, both of digits.
unfoldable pub parse_parts : Text → Text → ℕ → ℕ → Result ℤ
parse_parts whole_digits fraction precision scale = do
  whole ← parse_uint whole_digits
  reject_if (ltb (max_word / scale) whole) invalid_decimal
  let atoms = whole * scale
  if is_empty fraction then ok (pos atoms) else (do
    fraction_atoms ← parse_uint (fraction ++ replicate (precision - length fraction) 48)
    reject_if (ltb (max_word - fraction_atoms) atoms) invalid_decimal
    ok (pos (atoms + fraction_atoms)))

-- Parse
unfoldable pub parse : Text → ℤ → Result ℤ
parse value scale = do
  precision ← scale_precision scale
  reject_if (is_empty value || bad_edges value) invalid_decimal
  let parts = split_dots value
  elim parts.1 [
    | [] ↦ do
      reject_if (is_empty parts.0 || not (digits_only parts.0)) invalid_decimal
      parse_parts parts.0 [] precision (pos_part scale)
    | fraction ∷ [] ↦ do
      reject_if (is_empty parts.0 || not (digits_only parts.0)) invalid_decimal
      reject_if (is_empty fraction || not (digits_only fraction) || ltb precision (length fraction))
          invalid_decimal
      parse_parts parts.0 fraction precision (pos_part scale)
    | _ ∷ _ ∷ _ ↦ err invalid_decimal
  ]

-- strings.TrimRight(s, "0")
unfoldable pub trim_zeros : Text → Text
trim_zeros [] = []
trim_zeros (c ∷ cs) = let rest = trim_zeros cs in if is_empty rest && eqb c 48 then [] else c ∷ rest

-- Format
unfoldable pub format : ℤ → ℤ → Result Text
format atoms scale = do
  precision ← scale_precision scale
  reject_if (ltb_ℤ atoms (pos 0)) invalid_decimal
  let whole = pos_part atoms / pos_part scale
  let fraction = pos_part atoms % pos_part scale
  if precision == 0
      then ok (decimal whole)
      else (if fraction == 0
          then ok (decimal whole)
          else ok (trim_zeros (decimal whole ++ b'.' ∷ zero_padded precision fraction)))
