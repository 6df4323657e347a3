-- ===== src/Prelude/Decided.antt =====
-- Go's `==` and reflect.DeepEqual on the types that the libraries decide.
use mathlib.Core.Path.{◌≡◌, refl}
use mathlib.Core.Logic.{◌↔◌}
use mathlib.Core.Bool.{Bool, true, false}
use native.Mathlib.Decide.{ℕ_discrete}
use native.Mathlib.Omega.{arith}
use qiu_market.Prelude.Int.{ℤ}
use qiu_market.Prelude.Tests.{Eq}

unfoldable pub ℤ-discrete : Discrete ℤ
ℤ-discrete = hlevel ℕ_discrete

abbrev pub decided {ℓ} : {P : Type ℓ} → Dec P → Bool
decided (yes p) = true
decided (no p) = false

pub decided_iff {ℓ} : {P : Type ℓ} (d : Dec P) → (decided d ≡ true) ↔ P
decided_iff (yes p) = (λ _. p, λ _. refl)
decided_iff (no n) = (λ e. absurd (ground arith), λ p. absurd (n p))

abbrev pub eq_of_discrete {ℓ} : {A : Type ℓ} → Discrete A → Eq A
eq_of_discrete d = record { beq = λ x y. decided (d x y); beq_iff = λ x y. decided_iff (d x y) }
