-- ===== src/Recovery/Actions.antt =====
-- Go methods that change their receiver and return `(T, error)`: actions on a state.
use qiu_market.Prelude.{Bool, true, false, ◌≡◌, refl, arith, ◌⊎◌, inl, inr, if◌then◌else◌}
use qiu_market.Recovery.Types.{RecoveryError}

pub data Reply {ℓ} (A : Type ℓ) : Type ℓ where
  done : A → Reply A
  failed : RecoveryError → Reply A

abbrev pub Act {ℓ κ} : Type ℓ → Type κ → Type (ℓ ⊔ κ)
Act W A = W → W × Reply A

abbrev pub and_then {ℓ κ μ} :
    {W : Type ℓ} {A : Type κ} {B : Type μ} → W × Reply A → (A → Act W B) → W × Reply B
and_then (w, done a) k = k a w
and_then (w, failed e) k = (w, failed e)

infixl 5 ◌>>=◌ ◌>>◌
abbrev pub ◌>>=◌ {ℓ κ μ} :
    {W : Type ℓ} {A : Type κ} {B : Type μ} → Act W A → (A → Act W B) → Act W B
m >>= k = λ w. and_then (m w) k

abbrev pub ◌>>◌ {ℓ κ μ} : {W : Type ℓ} {A : Type κ} {B : Type μ} → Act W A → Act W B → Act W B
m >> k = m >>= λ _. k

abbrev pub give {ℓ κ} : {W : Type ℓ} {A : Type κ} → A → Act W A
give a = λ w. (w, done a)

abbrev pub fail {ℓ κ} : {W : Type ℓ} {A : Type κ} → RecoveryError → Act W A
fail e = λ w. (w, failed e)

-- `if cond { return ..., err }`
abbrev pub fail_if {ℓ} : {W : Type ℓ} → Bool → RecoveryError → Act W (Unit {0})
fail_if true e = fail e
fail_if false e = give tt

abbrev pub is_done {ℓ} : {A : Type ℓ} → Reply A → Bool
is_done (done a) = true
is_done (failed e) = false

-- A run of two actions, taken apart at the first.
pub and_then-cases {ℓ κ μ} :
    {W : Type ℓ} {A : Type κ} {B : Type μ} (p : W × Reply A) (k : A → Act W B)
    → ((a : A) × (p.1 ≡ done a) × (and_then p k ≡ k a p.0))
      ⊎ ((e : RecoveryError) × (p.1 ≡ failed e) × (and_then p k ≡ (p.0, failed e)))
and_then-cases (w, done a) k = inl (a, refl, refl)
and_then-cases (w, failed e) k = inr (e, refl, refl)

pub and_then-done {ℓ κ μ} :
    {W : Type ℓ} {A : Type κ} {B : Type μ} (p : W × Reply A) (k : A → Act W B) {b : B}
    → (and_then p k).1 ≡ done b
    → (a : A) × (p ≡ (p.0, done a)) × (and_then p k ≡ k a p.0)
and_then-done (w, done a) k h = (a, refl, refl)
and_then-done (w, failed e) k h = absurd (ground arith)

pub done-injective {ℓ} : {A : Type ℓ} {a b : A} → done a ≡ done b → a ≡ b
done-injective h = cc

-- `if cond { return ..., err }` in front of a plan, passed.
pub unless-done {ℓ} :
    {A : Type ℓ} (b : Bool) (e : RecoveryError) (r : Reply A) {a : A}
    → (if b then failed e else r) ≡ done a
    → (b ≡ false) × (r ≡ done a)
unless-done true e r h = absurd (ground arith)
unless-done false e r h = (refl, h)

-- `if cond { return ..., err }`, passed.
pub fail_if-passed {ℓ κ} :
    {W : Type ℓ} {A : Type κ} (b : Bool) (e : RecoveryError) (w : W) (k : Unit {0} → Act W A)
    {a : A}
    → (and_then (fail_if b e w) k).1 ≡ done a
    → (b ≡ false) × ((k tt w).1 ≡ done a)
fail_if-passed true e w k h = absurd (ground arith)
fail_if-passed false e w k h = (refl, h)
