-- ===== src/Prelude/Int.antt =====
-- Signed integers over the native numbers, and Go's int64 as the integers of its range: every
-- operation of the source that could leave the range wraps around.
use Prim.Native.Nat.{ℕ, suc, ◌+◌, ◌-◌, ◌%◌, ◌≤◌, ◌<◌}
use mathlib.Core.Path.{◌≡◌, ◌∙◌}
use mathlib.Core.Logic.{◌↔◌}
use mathlib.Core.Bool.{Bool, true}
use native.Mathlib.Omega.{arith}
use native.Mathlib.Nat.{zero-mod}
use qiu_market.Prelude.Tests.{ltb, leb, eqb, if◌then◌else◌, Eq}

-- `negsuc n` is -(n + 1).
pub data ℤ : Type 0 where
  pos : ℕ → ℤ
  negsuc : ℕ → ℤ

abbrev pub pos_part : ℤ → ℕ
pos_part (pos n) = n
pos_part (negsuc n) = 0

abbrev pub neg_part : ℤ → ℕ
neg_part (pos n) = 0
neg_part (negsuc n) = suc n

-- a - b, as an integer.
abbrev pub sub_ℕ : ℕ → ℕ → ℤ
sub_ℕ a b = if leb b a then pos (a - b) else negsuc (b - a - 1)

infixl 65 ◌+ℤ◌ ◌-ℤ◌
infix 50 ◌≤ℤ◌ ◌<ℤ◌
unfoldable pub ◌+ℤ◌ : ℤ → ℤ → ℤ
a +ℤ b = sub_ℕ (pos_part a + pos_part b) (neg_part a + neg_part b)

unfoldable pub ◌-ℤ◌ : ℤ → ℤ → ℤ
a -ℤ b = sub_ℕ (pos_part a + neg_part b) (neg_part a + pos_part b)

abbrev pub ◌≤ℤ◌ : ℤ → ℤ → Type 0
a ≤ℤ b = pos_part a + neg_part b ≤ pos_part b + neg_part a

abbrev pub ◌<ℤ◌ : ℤ → ℤ → Type 0
a <ℤ b = pos_part a + neg_part b < pos_part b + neg_part a

abbrev pub ltb_ℤ : ℤ → ℤ → Bool
ltb_ℤ a b = ltb (pos_part a + neg_part b) (pos_part b + neg_part a)

abbrev pub leb_ℤ : ℤ → ℤ → Bool
leb_ℤ a b = leb (pos_part a + neg_part b) (pos_part b + neg_part a)

abbrev pub eqb_ℤ : ℤ → ℤ → Bool
eqb_ℤ a b = eqb (pos_part a + neg_part b) (pos_part b + neg_part a)

pub eqb_ℤ_iff : (a b : ℤ) → (eqb_ℤ a b ≡ true) ↔ (a ≡ b)
eqb_ℤ_iff a b = ground arith

instance abbrev pub int_eq : Eq ℤ
int_eq = record { beq = eqb_ℤ; beq_iff = eqb_ℤ_iff }

-- With these lemmas the operations can stay shut.
pub +ℤ_parts :
    (a b : ℤ)
    → pos_part (a +ℤ b) + neg_part a + neg_part b ≡ neg_part (a +ℤ b) + pos_part a + pos_part b
unfolding ◌+ℤ◌
+ℤ_parts a b = ground arith

pub -ℤ_parts :
    (a b : ℤ)
    → pos_part (a -ℤ b) + neg_part a + pos_part b ≡ neg_part (a -ℤ b) + pos_part a + neg_part b
unfolding ◌-ℤ◌
-ℤ_parts a b = ground arith

pub eq_of_parts : (a b : ℤ) → pos_part a + neg_part b ≡ pos_part b + neg_part a → a ≡ b
eq_of_parts a b h = ground arith

pub ruleset int_laws = (arith, +ℤ_parts, -ℤ_parts, eq_of_parts)

-- math.MaxInt64; math.MinInt64 is `negsuc max_word`.
abbrev pub max_word : ℕ
max_word = 9223372036854775807

abbrev pub word_mod : ℕ
word_mod = 18446744073709551616

abbrev pub IsInt64 : ℤ → Type 0
IsInt64 a = (pos_part a ≤ max_word) × (neg_part a ≤ max_word + 1)

-- Two's complement.
unfoldable pub wrap64 : ℤ → ℤ
wrap64 a =
    let u = (pos_part a % word_mod + (word_mod - neg_part a % word_mod)) % word_mod in
    if leb u max_word then pos u else negsuc (word_mod - u - 1)

pub wrap64-id : (a : ℤ) → IsInt64 a → wrap64 a ≡ a
unfolding wrap64
wrap64-id (pos n) h = ground arith
wrap64-id (negsuc n) h = ground arith

pub wrap64-IsInt64 : (a : ℤ) → IsInt64 (wrap64 a)
unfolding wrap64
wrap64-IsInt64 a = ground arith

-- `a + b`, `a - b` and `-a` on int64.
unfoldable pub add64 : ℤ → ℤ → ℤ
add64 a b = wrap64 (a +ℤ b)

unfoldable pub sub64 : ℤ → ℤ → ℤ
sub64 a b = wrap64 (a -ℤ b)

unfoldable pub neg64 : ℤ → ℤ
neg64 a = wrap64 (pos 0 -ℤ a)

abbrev pub magnitude : ℤ → ℕ
magnitude a = pos_part a + neg_part a

-- `a % b` on int64, with the sign of `a`. Go panics at b = 0, which the market's checks exclude.
unfoldable pub rem64 : ℤ → ℤ → ℤ
rem64 a b = sub_ℕ (pos_part a % magnitude b) (neg_part a % magnitude b)

pub sub64-id : (a b : ℤ) → IsInt64 (a -ℤ b) → sub64 a b ≡ a -ℤ b
unfolding sub64
sub64-id a b h = wrap64-id (a -ℤ b) h

pub add64-id : (a b : ℤ) → IsInt64 (a +ℤ b) → add64 a b ≡ a +ℤ b
unfolding add64
add64-id a b h = wrap64-id (a +ℤ b) h

-- The difference of two int64 values that are not negative.
pub sub64-nonneg : (a b : ℕ) → b ≤ a → a ≤ max_word → sub64 (pos a) (pos b) ≡ pos (a - b)
unfolding ◌-ℤ◌
sub64-nonneg a b h m = ground (arith, sub64-id (pos a) (pos b))

-- math.MinInt64 less a negative value.
pub sub64-min : (n : ℕ) → n ≤ max_word → sub64 (negsuc max_word) (negsuc n) ≡ sub_ℕ n max_word
unfolding ◌-ℤ◌ sub64
sub64-min n h =
    wrap64-id (negsuc max_word -ℤ negsuc n) (ground arith) ∙ eq_of_parts _ _ (ground arith)

pub add64-pos : (a b : ℕ) → a + b ≤ max_word → add64 (pos a) (pos b) ≡ pos (a + b)
unfolding ◌+ℤ◌ add64
add64-pos a b h = ground (arith, wrap64-id (pos (a + b)) (omega arith))

pub add64-mixed :
    (a b : ℕ) → a ≤ max_word → b ≤ max_word → add64 (pos a) (negsuc b) ≡ sub_ℕ a (suc b)
unfolding ◌+ℤ◌ add64
add64-mixed a b h k =
    wrap64-id (sub_ℕ (a + 0) (0 + suc b)) (ground arith) ∙ eq_of_parts _ _ (ground arith)

pub add64-mixed' :
    (a b : ℕ) → a ≤ max_word → b ≤ max_word → add64 (negsuc b) (pos a) ≡ sub_ℕ a (suc b)
unfolding ◌+ℤ◌ add64
add64-mixed' a b h k =
    wrap64-id (sub_ℕ (0 + a) (suc b + 0)) (ground arith) ∙ eq_of_parts _ _ (ground arith)

pub add64-neg : (a b : ℕ) → a + b < max_word → add64 (negsuc a) (negsuc b) ≡ negsuc (a + b + 1)
unfolding ◌+ℤ◌ add64
add64-neg a b h =
    wrap64-id (sub_ℕ 0 (suc a + suc b)) (ground arith) ∙ eq_of_parts _ _ (ground arith)

pub rem64-pos : (a b : ℕ) → rem64 (pos a) (pos b) ≡ pos (a % b)
unfolding rem64
rem64-pos a b = ground (arith, zero-mod b, zero-mod (b + 0))

pub +ℤ_assoc : (a b c : ℤ) → a +ℤ b +ℤ c ≡ a +ℤ (b +ℤ c)
+ℤ_assoc a b c = omega int_laws

pub +ℤ-zero : (a : ℤ) → a +ℤ pos 0 ≡ a
+ℤ-zero a = omega int_laws
