-- ===== src/Retry/Operation.antt =====
-- common/retry/operation.go. An operation is what it answers at each attempt, the context the error
-- that it has, if any, in front of each attempt; a sleep is noted by its attempt, which is what the
-- strategy is asked about.
use qiu_market.Prelude.Text.{Text}
use qiu_market.Prelude.{ℕ, zero, suc, ◌+◌, Option, none, some, List, [], ◌∷◌}

-- An attempt's answer.
pub data Attempt {ℓ} (A : Type ℓ) : Type ℓ where
  succeeds : A → Attempt A
  errs : Text → Attempt A

-- What Do returns; `failed_permanently` is ErrFailedPermanently with its attempts and last error.
pub data Attempted {ℓ} (A : Type ℓ) : Type ℓ where
  returned : A → Attempted A
  no_attempts : Attempted A
  canceled_by : Text → Attempted A
  failed_permanently : ℕ → Text → Attempted A

-- A run of Do: what it returns, how often the operation was called, and the sleeps in order.
pub record Tried {ℓ} (A : Type ℓ) : Type ℓ where
  pub outcome : Attempted A
  pub calls : ℕ
  pub sleeps : List ℕ

-- The sleep behind a failed attempt, with so many attempts left.
abbrev pub slept : ℕ → ℕ → List ℕ → List ℕ
slept zero i later = later
slept (suc left) i later = i ∷ later

module _ {ℓ} {A : Type ℓ} where
  -- One failed attempt in front of the others.
  abbrev pub behind_failure : ℕ → ℕ → Tried A → Tried A
  behind_failure left i rest = record rest {
    calls = rest.calls + 1;
    sleeps = slept left i rest.sleeps;
  }

  -- The loop of Do: so many attempts are left, from attempt i on.
  unfoldable pub attempt_from :
      (limit left i : ℕ) → (ℕ → Option Text) → (ℕ → Attempt A) → Text → Tried A
  attempt_from limit zero i context op last = record {
    outcome = failed_permanently limit last;
    calls = 0;
    sleeps = [];
  }
  attempt_from limit (suc left) i context op last = elim (context i) [
    | some cause ↦ record { outcome = canceled_by cause; calls = 0; sleeps = [] }
    | none ↦ elim (op i) [
      | succeeds a ↦ record { outcome = returned a; calls = 1; sleeps = [] }
      | errs text ↦ behind_failure left i (attempt_from limit left (suc i) context op text)
    ]
  ]

  -- Do
  unfoldable pub do_attempts : ℕ → (ℕ → Option Text) → (ℕ → Attempt A) → Tried A
  do_attempts zero context op = record { outcome = no_attempts; calls = 0; sleeps = [] }
  do_attempts (suc n) context op = attempt_from (suc n) (suc n) 0 context op []
