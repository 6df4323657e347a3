-- ===== src/Prelude/Text.antt =====
-- Go strings as their bytes, and the number formats of `fmt` and `strconv` that the source uses.
use Prim.Native.Nat.{ℕ, zero, suc, ◌+◌, ◌-◌, ◌*◌, ◌/◌, ◌%◌, ◌<◌, ◌≤◌, ◌^◌}
use Prim.Native.Char.{code}
use Prim.Native.String.{String}
use mathlib.Core.Path.{◌≡◌, refl}
use mathlib.Core.Logic.{◌↔◌, inl, inr}
use mathlib.Core.Bool.{Bool, true, false, ◌&&◌}
use mathlib.Core.List.{List, [], ◌∷◌, ◌++◌}
use native.Mathlib.Omega.{arith}
use native.Mathlib.Nat.{pow-suc}
use qiu_market.Prelude.Tests.{ltb, eqb, if◌then◌else◌, Eq, Bool-cases}
use qiu_market.Prelude.Lists.{length, replicate, All, length-append, length-replicate}

abbrev pub Text : Type 0
Text = List ℕ

-- The bytes of an ASCII literal.
abbrev pub bytes : String → Text
bytes String.[] = []
bytes (String.◌∷◌ c s) = code c ∷ bytes s

abbrev pub text_beq : Text → Text → Bool
text_beq [] [] = true
text_beq [] (y ∷ ys) = false
text_beq (x ∷ xs) [] = false
text_beq (x ∷ xs) (y ∷ ys) = eqb x y && text_beq xs ys

pub text_beq_iff : (a b : Text) → (text_beq a b ≡ true) ↔ (a ≡ b)
text_beq_iff [] [] = ground arith
text_beq_iff [] (y ∷ ys) = ground arith
text_beq_iff (x ∷ xs) [] = ground arith
text_beq_iff (x ∷ xs) (y ∷ ys) = ground (arith, text_beq_iff xs ys)

instance abbrev pub text_eq : Eq Text
text_eq = record { beq = text_beq; beq_iff = text_beq_iff }

abbrev pub is_empty : Text → Bool
is_empty [] = true
is_empty (x ∷ xs) = false

-- strings.HasPrefix(s, p)
abbrev pub has_prefix : Text → Text → Bool
has_prefix s [] = true
has_prefix [] (p ∷ ps) = false
has_prefix (c ∷ cs) (p ∷ ps) = eqb c p && has_prefix cs ps

-- The digits of `n` in front of `acc`; `n < fuel` is enough.
decimal_from : (fuel n : ℕ) → Text → Text
decimal_from zero n acc = acc
decimal_from (suc fuel) n acc =
    let rest = decimal_from fuel (n / 10) ((48 + n % 10) ∷ acc) in
    if ltb n 10 then (48 + n) ∷ acc else rest

-- strconv.FormatInt(n, 10) and `%d`
unfoldable pub decimal : ℕ → Text
unfolding decimal_from
decimal n = decimal_from (suc n) n []

-- `%0wd`
unfoldable pub zero_padded : ℕ → ℕ → Text
zero_padded w n = let ds = decimal n in replicate (w - length ds) 48 ++ ds

-- The number that digits spell, behind those that spell `v`.
unfoldable pub digits_value : ℕ → Text → ℕ
digits_value v [] = v
digits_value v (c ∷ cs) = digits_value (v * 10 + (c - 48)) cs

decimal_from_value :
    (fuel n : ℕ) (acc : Text)
    → n < fuel
    → digits_value 0 (decimal_from fuel n acc) ≡ digits_value n acc
unfolding digits_value decimal_from
decimal_from_value zero n acc h = elim h [ ]
decimal_from_value (suc fuel) n acc h =
    ground (arith, decimal_from_value fuel (n / 10) ((48 + n % 10) ∷ acc))

pub digits_value-decimal : (n : ℕ) → digits_value 0 (decimal n) ≡ n
unfolding decimal digits_value
digits_value-decimal n = decimal_from_value (suc n) n [] (omega arith)

digits_value-zeros : (k : ℕ) (t : Text) → digits_value 0 (replicate k 48 ++ t) ≡ digits_value 0 t
unfolding digits_value
digits_value-zeros zero t = refl
digits_value-zeros (suc k) t = digits_value-zeros k t

pub digits_value-zero_padded : (w n : ℕ) → digits_value 0 (zero_padded w n) ≡ n
unfolding zero_padded
digits_value-zero_padded w n =
    ground (arith, digits_value-zeros (w - length (decimal n)) (decimal n), digits_value-decimal n)

-- Bytes that are all decimal digits.
abbrev pub IsDigits : Text → Type 0
IsDigits = All (λ c. (48 ≤ c) × (c ≤ 57))

decimal_from-IsDigits :
    (fuel n : ℕ) (acc : Text)
    → n < fuel
    → IsDigits acc
    → IsDigits (decimal_from fuel n acc) × (is_empty (decimal_from fuel n acc) ≡ false)
unfolding decimal_from
decimal_from-IsDigits zero n acc h d = absurd (omega arith)
decimal_from-IsDigits (suc fuel) n acc h d = elim (Bool-cases (ltb n 10)) [
  | inl e ↦ rw (decimal_from, e) (((ground arith, ground arith), d), refl)
  | inr e ↦
      rw (decimal_from, e)
        (decimal_from-IsDigits fuel (n / 10) ((48 + n % 10) ∷ acc) (ground arith)
          ((omega arith, omega arith), d))
]

pub decimal-IsDigits : (n : ℕ) → IsDigits (decimal n) × (is_empty (decimal n) ≡ false)
unfolding decimal
decimal-IsDigits n = decimal_from-IsDigits (suc n) n [] (omega arith) tt

pub tenfold : (k : ℕ) → 10 ^ suc k ≡ 10 * 10 ^ k
tenfold k = rw pow-suc (omega arith)

pub pow_pos : (k : ℕ) → 0 < 10 ^ k
pow_pos zero = omega arith
pow_pos (suc k) = omega (arith, tenfold k, pow_pos k)

length-decimal_from :
    (fuel n w : ℕ) (acc : Text)
    → n < fuel
    → n < 10 ^ suc w
    → length (decimal_from fuel n acc) ≤ suc w + length acc
unfolding decimal_from
length-decimal_from zero n w acc h b = absurd (omega arith)
length-decimal_from (suc fuel) n zero acc h b =
    let small : ltb n 10 ≡ true = ground arith in rw (decimal_from, small) (omega arith)
length-decimal_from (suc fuel) n (suc w) acc h b = elim (Bool-cases (ltb n 10)) [
  | inl e ↦ rw (decimal_from, e) (omega arith)
  | inr e ↦
      let rest =
        length-decimal_from fuel (n / 10) w ((48 + n % 10) ∷ acc) (ground arith)
          (omega (arith, tenfold (suc w), b)) in
      rw (decimal_from, e) (omega (arith, rest))
]

-- A number below the power of ten of a positive width fills that width.
pub length-zero_padded : (w n : ℕ) → 0 < w → n < 10 ^ w → length (zero_padded w n) ≡ w
unfolding zero_padded decimal
length-zero_padded zero n h b = absurd (omega arith)
length-zero_padded (suc w) n h b =
    let short = length-decimal_from (suc n) n w [] (omega arith) b in
    omega (
      arith,
      short,
      length-append (replicate (suc w - length (decimal n)) 48) (decimal n),
      length-replicate {A = ℕ} (suc w - length (decimal n)) 48,
    )

replicate-IsDigits : (k : ℕ) (t : Text) → IsDigits t → IsDigits (replicate k 48 ++ t)
replicate-IsDigits zero t h = h
replicate-IsDigits (suc k) t h = ((omega arith, omega arith), replicate-IsDigits k t h)

pub zero_padded-IsDigits : (w n : ℕ) → IsDigits (zero_padded w n)
unfolding zero_padded
zero_padded-IsDigits w n =
    replicate-IsDigits (w - length (decimal n)) (decimal n) (decimal-IsDigits n).0
