-- ===== src/Decimal/Strings.antt =====
-- Splitting, testing and trimming of decimal strings, as in trading/decimal/decimal.go.
use qiu_market.Decimal.{all_digits, bad_edges, last_is_space, split_dots, trim_zeros}
use qiu_market.Prelude.{
  ℕ, suc, ◌+◌, ◌-◌, true, false, [], ◌∷◌, ◌++◌, replicate, length, eqb, ◌≡◌, refl, sym, ap, arith,
  Bool-cases, inl, inr, ◌&&◌, and_split,
}
use qiu_market.Prelude.Text.{Text, is_empty, digits_value, IsDigits}

pub IsDigits-all : (t : Text) → IsDigits t → all_digits t ≡ true
IsDigits-all [] h = refl
IsDigits-all (c ∷ cs) h = ground (arith, IsDigits-all cs h.1)

pub split_dots-whole : (ws : Text) → IsDigits ws → split_dots ws ≡ (ws, [])
unfolding split_dots
split_dots-whole [] h = refl
split_dots-whole (c ∷ cs) h =
    let no_dot : eqb c 46 ≡ false = ground arith in rw (split_dots-whole cs h.1, no_dot) refl

pub split_dots-fraction :
    (ws fs : Text) → IsDigits ws → IsDigits fs → split_dots (ws ++ 46 ∷ fs) ≡ (ws, fs ∷ [])
unfolding split_dots
split_dots-fraction [] fs h k = rw (split_dots-whole fs k) refl
split_dots-fraction (c ∷ cs) fs h k =
    let no_dot : eqb c 46 ≡ false = ground arith in
    rw (split_dots-fraction cs fs h.1 k, no_dot) refl

pub last_is_space-digits : (c : ℕ) (t : Text) → IsDigits (c ∷ t) → last_is_space (c ∷ t) ≡ false
last_is_space-digits c [] h = ground arith
last_is_space-digits c (d ∷ t) h = last_is_space-digits d t h.1

pub last_is_space-append :
    (c : ℕ) (xs ys : Text) (d : ℕ) → last_is_space (c ∷ xs ++ d ∷ ys) ≡ last_is_space (d ∷ ys)
last_is_space-append c [] ys d = refl
last_is_space-append c (x ∷ xs) ys d = last_is_space-append x xs ys d

pub trim_zeros-append :
    (xs ys : Text) → is_empty (trim_zeros ys) ≡ false → trim_zeros (xs ++ ys) ≡ xs ++ trim_zeros ys
unfolding trim_zeros
trim_zeros-append [] ys h = refl
trim_zeros-append (c ∷ cs) ys h =
    let some_left = nonempty-append cs (trim_zeros ys) h in
    rw (trim_zeros-append cs ys h, some_left) refl
  where
    nonempty-append : (xs zs : Text) → is_empty zs ≡ false → is_empty (xs ++ zs) ≡ false
    nonempty-append [] zs h = h
    nonempty-append (x ∷ xs) zs h = refl

-- What is left of digits when zeros are cut off: digits, which those zeros complete again.
pub record Trimmed (t r : Text) : Type 0 where
  pub digits : IsDigits r
  pub zeros : ℕ
  pub length_eq : length r + zeros ≡ length t
  pub completed : r ++ replicate zeros 48 ≡ t

cut_off : (c : ℕ) (t r : Text) → Trimmed t r → is_empty r ≡ true → c ≡ 48 → Trimmed (c ∷ t) []
cut_off c t [] k none_left e = record {
  digits = tt;
  zeros = suc k.zeros;
  length_eq = let l = k.length_eq in omega (arith, l);
  completed = let z = k.completed in rw z (ap (λ (d : ℕ). d ∷ t) (sym e));
}
cut_off c t (d ∷ r) k none_left e = absurd (ground arith)

kept_on : (c : ℕ) (t r : Text) → IsDigits (c ∷ t) → Trimmed t r → Trimmed (c ∷ t) (c ∷ r)
kept_on c t r h k = record {
  digits = (h.0, k.digits);
  zeros = k.zeros;
  length_eq = let l = k.length_eq in omega (arith, l);
  completed = ap (λ (u : Text). c ∷ u) k.completed;
}

pub trim_zeros-Trimmed : (t : Text) → IsDigits t → Trimmed t (trim_zeros t)
unfolding trim_zeros
trim_zeros-Trimmed [] h = record {
  digits = tt;
  zeros = 0;
  length_eq = omega arith;
  completed = refl;
}
trim_zeros-Trimmed (c ∷ cs) h =
    let k = trim_zeros-Trimmed cs h.1 in
    elim (Bool-cases (is_empty (trim_zeros cs) && eqb c 48)) [
      | inl e ↦
          let (none_left, zero_digit) = and_split (is_empty (trim_zeros cs)) (eqb c 48) e in
          rw e (cut_off c cs (trim_zeros cs) k none_left (ground arith))
      | inr e ↦ rw e (kept_on c cs (trim_zeros cs) h k)
    ]

pub trimmed_value : (t : Text) → is_empty (trim_zeros t) ≡ true → digits_value 0 t ≡ 0
unfolding trim_zeros digits_value
trimmed_value [] h = refl
trimmed_value (c ∷ cs) h = elim (Bool-cases (is_empty (trim_zeros cs) && eqb c 48)) [
  | inl e ↦
      let (none_left, zero_digit) = and_split (is_empty (trim_zeros cs)) (eqb c 48) e in
      let nothing : c - 48 ≡ 0 = ground arith in rw nothing (trimmed_value cs none_left)
  | inr e ↦ absurd (let bad = rw e at h in ground arith)
]

-- A text of digits in front of a dot or of the end is clean at its edges.
pub bad_edges-whole : (ws : Text) → IsDigits ws → bad_edges ws ≡ false
bad_edges-whole [] h = refl
bad_edges-whole (c ∷ cs) h = ground (arith, last_is_space-digits c cs h)

pub bad_edges-fraction :
    (ws fs : Text)
    → IsDigits ws
    → is_empty ws ≡ false
    → IsDigits fs
    → is_empty fs ≡ false
    → bad_edges (ws ++ 46 ∷ fs) ≡ false
bad_edges-fraction [] fs h q k r = absurd (ground arith)
bad_edges-fraction (c ∷ cs) [] h q k r = absurd (ground arith)
bad_edges-fraction (c ∷ cs) (d ∷ fs) h q k r =
    ground (arith, last_is_space-append c cs (d ∷ fs) 46, last_is_space-digits d fs k)
