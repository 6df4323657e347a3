-- ===== src/Prelude/Result.antt =====
-- Go's `(T, error)`. An error is told by the sentinel that it wraps, which is all that callers
-- test with `errors.Is`; the text of the message is left out. `internal` wraps no sentinel.
use qiu_market.Prelude.{arith}
use mathlib.Core.Path.{◌≡◌, refl}
use mathlib.Core.Bool.{Bool, true, false}
use mathlib.Core.Logic.{◌⊎◌, inl, inr}

pub data Error : Type 0 where
  invalid_market invalid_order invalid_request arithmetic_overflow idempotency_conflict : Error
  invalid_decimal : Error
  duplicate_order book_order_not_found invalid_book_order : Error
  duplicate_transaction unbalanced_transaction insufficient_balance invalid_transaction : Error
  persistence sequence_conflict recovery_diverged : Error
  canceled_context internal out_of_fuel : Error

pub data Result {ℓ} (A : Type ℓ) : Type ℓ where
  ok : A → Result A
  err : Error → Result A

infixl 5 ◌>>=◌ ◌>>◌
abbrev pub ◌>>=◌ {ℓ κ} : {A : Type ℓ} {B : Type κ} → Result A → (A → Result B) → Result B
ok a >>= f = f a
err e >>= f = err e

abbrev pub ◌>>◌ {ℓ κ} : {A : Type ℓ} {B : Type κ} → Result A → Result B → Result B
m >> k = m >>= λ _. k

-- `if cond { return ..., err }`
abbrev pub reject_if : Bool → Error → Result (Unit {0})
reject_if true e = err e
reject_if false e = ok tt

-- `if err != nil { return ..., fmt.Errorf("...: %v", err) }` with a sentinel of its own.
abbrev pub relabel {ℓ} : {A : Type ℓ} → Error → Result A → Result A
relabel e (ok a) = ok a
relabel e (err _) = err e

pub >>=-eq-ok {ℓ κ} :
    {X : Type ℓ} {Y : Type κ} (first : Result X) (rest : X → Result Y) {y : Y}
    → (first >>= rest) ≡ ok y
    → (x : X) × (first ≡ ok x) × (rest x ≡ ok y)
>>=-eq-ok (ok x) rest e = (x, refl, e)
>>=-eq-ok (err why) rest e = absurd (ground arith)

pub reject_if-eq-ok : (b : Bool) (e : Error) → reject_if b e ≡ ok tt → b ≡ false
reject_if-eq-ok true e h = cc
reject_if-eq-ok false e h = refl

pub relabel-eq-ok {ℓ} :
    {A : Type ℓ} (e : Error) (r : Result A) {a : A} → relabel e r ≡ ok a → r ≡ ok a
relabel-eq-ok e (ok a) h = h
relabel-eq-ok e (err d) h = cc

-- What a successful or failed result satisfies.
abbrev pub Ensures {ℓ κ} : {A : Type ℓ} → (A → Type κ) → Result A → Type κ
Ensures P (ok a) = P a
Ensures P (err e) = Unit

pub ok-injective {ℓ} : {A : Type ℓ} {a b : A} → ok a ≡ ok b → a ≡ b
ok-injective h = cc

pub Result-cases {ℓ} :
    {A : Type ℓ} (r : Result A) → ((a : A) × (r ≡ ok a)) ⊎ ((e : Error) × (r ≡ err e))
Result-cases (ok a) = inl (a, refl)
Result-cases (err e) = inr (e, refl)
