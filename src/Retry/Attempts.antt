-- ===== src/Retry/Attempts.antt =====
-- How often common/retry/operation.go attempts an operation, and what it returns.
use qiu_market.Retry.Operation.{
  Attempt, attempt_from, errs, behind_failure, succeeds, returned, Tried, do_attempts,
  failed_permanently, slept,
}
use qiu_market.Prelude.Text.{Text}
use qiu_market.Prelude.{
  ℕ, zero, suc, ◌+◌, ◌<◌, ◌≡◌, refl, sym, ap, ◌∙◌, Option, none, List, [], length, arith,
}

slept-length : (left i : ℕ) (xs : List ℕ) → 0 < left → length (slept left i xs) ≡ suc (length xs)
slept-length zero i xs h = absurd (ground arith)
slept-length (suc left) i xs h = refl

zero_shift : (i : ℕ) → i ≡ i + 0
zero_shift i = ground arith

suc_shift : (i j : ℕ) → suc i + j ≡ i + suc j
suc_shift i j = ground arith

from_zero : (j : ℕ) → 0 + j ≡ j
from_zero j = ground arith

one_more : (k : ℕ) → k + 1 + 1 ≡ suc k + 1
one_more k = ground arith

plus_one : (k : ℕ) → k + 1 ≡ suc k
plus_one k = ground arith

module _ {ℓ} {A : Type ℓ} (context : ℕ → Option Text) (op : ℕ → Attempt A)
    (live : (i : ℕ) → context i ≡ none) where
  -- A failed attempt with others behind it.
  attempt_fails :
      (limit left i : ℕ) (text last : Text)
      → op i ≡ errs text
      → attempt_from limit (suc left) i context op last
        ≡ behind_failure left i (attempt_from limit left (suc i) context op text)
  unfolding attempt_from
  attempt_fails limit left i text last e = rw (attempt_from, live i, e) refl

  -- From attempt i, the first success is k attempts later.
  first_success_from :
      (limit left i k : ℕ) (a : A) (last : Text)
      → k < left
      → ((j : ℕ) → j < k → (t : Text) × (op (i + j) ≡ errs t))
      → op (i + k) ≡ succeeds a
      → ((attempt_from limit left i context op last).outcome ≡ returned a)
        × ((attempt_from limit left i context op last).calls ≡ k + 1)
        × (length (attempt_from limit left i context op last).sleeps ≡ k)
  unfolding attempt_from
  first_success_from limit zero i k a last h fails good = absurd (ground arith)
  first_success_from limit (suc left) i zero a last h fails good =
      let here : op i ≡ succeeds a = ap op (ground arith) ∙ good in
      (
        rw (attempt_from, live i, here) refl,
        rw (attempt_from, live i, here) (ground arith),
        rw (attempt_from, live i, here) refl,
      )
  first_success_from limit (suc left) i (suc k) a last h fails good =
      let (t, e0) = fails 0 (ground arith) in
      let here : op i ≡ errs t = ap op (zero_shift i) ∙ e0 in
      let (o, c, s) =
        first_success_from limit left (suc i) k a t (ground arith)
          (λ j hj. let (u, f) = fails (suc j) (ground arith) in (u, ap op (suc_shift i j) ∙ f))
          (ap op (suc_shift i k) ∙ good) in
      let run = attempt_fails limit left i t last here in
      (
        ap (λ (z : Tried A). z.outcome) run ∙ o,
        ap (λ (z : Tried A). z.calls) run ∙ ap (λ (m : ℕ). m + 1) c ∙ one_more k,
        ap (λ (z : Tried A). length z.sleeps) run
            ∙ (slept-length left i (attempt_from limit left (suc i) context op t).sleeps
                  (ground arith)
                ∙ ap suc s),
      )

  -- From attempt i, every attempt fails.
  exhausted_from :
      (limit left i : ℕ) (last : Text)
      → ((j : ℕ) → j < suc left → (t : Text) × (op (i + j) ≡ errs t))
      → (t : Text) × (op (i + left) ≡ errs t)
        × ((attempt_from limit (suc left) i context op last).outcome ≡ failed_permanently limit t)
        × ((attempt_from limit (suc left) i context op last).calls ≡ suc left)
        × (length (attempt_from limit (suc left) i context op last).sleeps ≡ left)
  unfolding attempt_from
  exhausted_from limit zero i last fails =
      let (t, e0) = fails 0 (ground arith) in
      let run = attempt_fails limit zero i t last (ap op (zero_shift i) ∙ e0) in
      (
        t,
        e0,
        ap (λ (z : Tried A). z.outcome) run,
        ap (λ (z : Tried A). z.calls) run ∙ (ground arith),
        ap (λ (z : Tried A). length z.sleeps) run,
      )
  exhausted_from limit (suc left) i last fails =
      let (u, e0) = fails 0 (ground arith) in
      let (t, e, o, c, s) =
        exhausted_from limit left (suc i) u
          (λ j hj. let (w, f) = fails (suc j) (ground arith) in (w, ap op (suc_shift i j) ∙ f)) in
      let run = attempt_fails limit (suc left) i u last (ap op (zero_shift i) ∙ e0) in
      (
        t,
        ap op (sym (suc_shift i left)) ∙ e,
        ap (λ (z : Tried A). z.outcome) run ∙ o,
        ap (λ (z : Tried A). z.calls) run ∙ ap (λ (m : ℕ). m + 1) c ∙ plus_one (suc left),
        ap (λ (z : Tried A). length z.sleeps) run ∙ ap suc s,
      )

  -- Under a live context Do returns the first success: if the k attempts before it fail and k is
  -- below the maximum, the operation is called k + 1 times, with k sleeps between the calls.
  pub do_first_success :
      (limit k : ℕ) (a : A)
      → k < limit
      → ((j : ℕ) → j < k → (t : Text) × (op j ≡ errs t))
      → op k ≡ succeeds a
      → ((do_attempts limit context op).outcome ≡ returned a)
        × ((do_attempts limit context op).calls ≡ k + 1)
        × (length (do_attempts limit context op).sleeps ≡ k)
  unfolding do_attempts
  do_first_success zero k a h fails good = absurd (ground arith)
  do_first_success (suc n) k a h fails good =
      first_success_from (suc n) (suc n) 0 k a [] h
        (λ j hj. let (t, e) = fails j hj in (t, ap op (from_zero j) ∙ e))
        (ap op (from_zero k) ∙ good)

  -- Under a live context an operation that fails every time is called as often as the maximum
  -- says, with a sleep between any two calls, and Do returns the error of the last call.
  pub do_exhausted :
      (n : ℕ)
      → ((j : ℕ) → j < suc n → (t : Text) × (op j ≡ errs t))
      → (t : Text) × (op n ≡ errs t)
        × ((do_attempts (suc n) context op).outcome ≡ failed_permanently (suc n) t)
        × ((do_attempts (suc n) context op).calls ≡ suc n)
        × (length (do_attempts (suc n) context op).sleeps ≡ n)
  unfolding do_attempts
  do_exhausted n fails =
      let (t, e, o, c, s) =
        exhausted_from (suc n) n 0 []
          (λ j hj. let (u, f) = fails j hj in (u, ap op (from_zero j) ∙ f)) in
      (t, ap op (sym (from_zero n)) ∙ e, o, c, s)
