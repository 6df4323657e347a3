-- ===== src/Outbox/Backoff.antt =====
-- The delays between retries of trading/outbox/publisher.go, and its state behind a failed cleanup.
use native.Mathlib.Nat.{two-pow-succ, mul-add}
use qiu_market.Prelude.Text.{Text}
use qiu_market.Outbox.Publisher.{
  Loop, Round, retry_later, round, min_duration, publish_round, record_error, goes_on, trouble, run,
  Answer, Next, answer, PublisherConfig,
}
use qiu_market.Prelude.{
  ℕ, suc, ◌+◌, ◌*◌, ◌^◌, ◌≤◌, Bool, true, false, ◌≡◌, refl, ◌∙◌, ap, List, [], ◌∷◌, All,
  if◌then◌else◌, ltb, arith, length, Bool-cases, inl, inr, not,
}
use qiu_market.Prelude.Int.{pos, add64, max_word, add64-pos, ℤ}

-- A round in which the store does not answer.
abbrev pub IsFailing : Round → Type 0
IsFailing r =
    (r.waited ≡ true)
    × (r.live ≡ true)
    × ((t : Text) × (r.loaded ≡ trouble t))
    × ((t : Text) × (r.batch ≡ trouble t))

-- The lesser of d * 2 ^ k and m.
abbrev pub capped : ℕ → ℕ → ℕ → ℕ
capped d m k = if ltb (d * 2 ^ k) m then d * 2 ^ k else m

record Retried (l next : Loop) : Type 0 where
  delay_eq : next.delay ≡ l.retry_delay
  retry_eq :
      next.retry_delay
      ≡ min_duration (add64 l.retry_delay l.retry_delay) l.publisher.config.maximum_retry_delay
  config_eq : next.publisher.config ≡ l.publisher.config

retried : Loop → Round → Text → Loop
retried l r text = record l {
  publisher = record_error l.publisher text r.recorded_at;
  delay = l.retry_delay;
  retry_delay =
      min_duration (add64 l.retry_delay l.retry_delay) l.publisher.config.maximum_retry_delay;
}

retry_later-Retried :
    (l : Loop) (r : Round) (t : Text)
    → r.live ≡ true
    → (next : Loop) × (retry_later l r t ≡ goes_on next) × Retried l next
unfolding retry_later record_error retried
retry_later-Retried l r t e = (
  retried l r t,
  rw (retry_later, e) refl,
  record { delay_eq = refl; retry_eq = refl; config_eq = refl },
)

past_wait {ℓ} : {A : Type ℓ} (b : Bool) (x y : A) → b ≡ true → (if not b then x else y) ≡ y
past_wait b x y e = rw e refl

first_branch {ℓ} : {A : Type ℓ} (b : Bool) (x y : A) → b ≡ true → (if b then x else y) ≡ x
first_branch b x y e = rw e refl

second_branch {ℓ} : {A : Type ℓ} (b : Bool) (x y : A) → b ≡ false → (if b then x else y) ≡ y
second_branch b x y e = rw e refl

troubled {ℓ} :
    {A : Type ℓ} (a : Answer A) (f : Text → Next) (g : A → Next) (t : Text)
    → a ≡ trouble t
    → elim a as (λ _. Next) [ trouble u ↦ f u | answer x ↦ g x ] ≡ f t
troubled a f g t e = rw e refl

round-initialized :
    (l : Loop) (r : Round) (u : Text)
    → r.waited ≡ true
    → l.initialized ≡ true
    → r.batch ≡ trouble u
    → round l r ≡ retry_later l r u
unfolding round publish_round
round-initialized l r u waits e no_batch =
    past_wait r.waited _ _ waits
    ∙ (first_branch l.initialized _ _ e ∙ troubled r.batch (retry_later l r) _ u no_batch)

round-loading :
    (l : Loop) (r : Round) (t : Text)
    → r.waited ≡ true
    → l.initialized ≡ false
    → r.loaded ≡ trouble t
    → round l r ≡ retry_later l r t
unfolding round
round-loading l r t waits e no_cursor =
    past_wait r.waited _ _ waits
    ∙ (second_branch l.initialized _ _ e ∙ troubled r.loaded (retry_later l r) _ t no_cursor)

round-Retried :
    (l : Loop) (r : Round)
    → IsFailing r
    → (next : Loop) × (round l r ≡ goes_on next) × Retried l next
round-Retried l r (waits, live, (t, no_cursor), (u, no_batch)) = elim (Bool-cases l.initialized) [
  | inl e ↦
      let (n, h, k) = retry_later-Retried l r u live in
      (n, round-initialized l r u waits e no_batch ∙ h, k)
  | inr e ↦
      let (n, h, k) = retry_later-Retried l r t live in
      (n, round-loading l r t waits e no_cursor ∙ h, k)
]

-- One doubling of a capped delay.
doubled_at :
    (a b m : ℕ)
    → b ≡ a + a
    → m + m ≤ max_word
    → min_duration (add64 (pos (if ltb a m then a else m)) (pos (if ltb a m then a else m))) (pos m)
      ≡ pos (if ltb b m then b else m)
doubled_at a b m e small = elim (Bool-cases (ltb a m)) [
  | inl h ↦ rw (h, add64-pos a a (ground arith)) (ground arith)
  | inr h ↦ rw (h, add64-pos m m small) (ground arith)
]

doubled :
    (d m k : ℕ)
    → d ≤ m
    → m + m ≤ max_word
    → min_duration (add64 (pos (capped d m k)) (pos (capped d m k))) (pos m)
      ≡ pos (capped d m (suc k))
doubled d m k h small =
    let power : d * 2 ^ suc k ≡ d * 2 ^ k + d * 2 ^ k =
      ap (λ (z : ℕ). d * z) (two-pow-succ k) ∙ mul-add d (2 ^ k) (2 ^ k) in
    doubled_at (d * 2 ^ k) (d * 2 ^ suc k) m power small

grown :
    (l next : Loop) (d m i : ℕ)
    → Retried l next
    → l.retry_delay ≡ pos (capped d m i)
    → l.publisher.config.maximum_retry_delay ≡ pos m
    → d ≤ m
    → m + m ≤ max_word
    → next.retry_delay ≡ pos (capped d m (suc i))
grown l next d m i k start top h small =
    k.retry_eq
    ∙ (ap (λ (v : ℤ). min_duration (add64 v v) l.publisher.config.maximum_retry_delay) start
        ∙ (ap (λ (v : ℤ). min_duration (add64 (pos (capped d m i)) (pos (capped d m i))) v) top
            ∙ doubled d m i h small))

run_on :
    (l next : Loop) (r : Round) (rs : List Round)
    → round l r ≡ goes_on next
    → run l (r ∷ rs) ≡ run next rs
unfolding run
run_on l next r rs e = rw (run, e) refl

back_off_from :
    (l : Loop) (r : Round) (rs : List Round) (d m i : ℕ)
    → l.retry_delay ≡ pos (capped d m i)
    → l.publisher.config.maximum_retry_delay ≡ pos m
    → d ≤ m
    → m + m ≤ max_word
    → All IsFailing (r ∷ rs)
    → (next : Loop) × (run l (r ∷ rs) ≡ goes_on next)
      × (next.delay ≡ pos (capped d m (i + length rs)))
unfolding run
back_off_from l r [] d m i start top h small fails =
    let (next, e, k) = round-Retried l r fails.0 in
    let shift : i ≡ i + 0 = ground arith in
    (next, run_on l next r [] e, k.delay_eq ∙ start ∙ ap (λ (n : ℕ). pos (capped d m n)) shift)
back_off_from l r (q ∷ qs) d m i start top h small fails =
    let (next, e, k) = round-Retried l r fails.0 in
    let (last, e2, waited) =
      back_off_from next q qs d m (suc i) (grown l next d m i k start top h small)
        (ap (λ (c : PublisherConfig). c.maximum_retry_delay) k.config_eq ∙ top) h small fails.1 in
    let shift : suc i + length qs ≡ i + suc (length qs) = ground arith in
    (last, run_on l next r (q ∷ qs) e ∙ e2, waited ∙ ap (λ (n : ℕ). pos (capped d m n)) shift)

first_delay : (d m : ℕ) → d ≤ m → d ≡ capped d m 0
first_delay d m h = ground arith

-- While the store fails and the context is live, the publisher goes on and waits longer: with a
-- retry delay of d and a maximum of m at first, behind k + 1 failing rounds it waits for the
-- lesser of d * 2 ^ k and m. d is at most m, and twice m is a duration.
pub retries_back_off :
    (l : Loop) (r : Round) (rs : List Round) (d m : ℕ)
    → l.retry_delay ≡ pos d
    → l.publisher.config.maximum_retry_delay ≡ pos m
    → d ≤ m
    → m + m ≤ max_word
    → All IsFailing (r ∷ rs)
    → (next : Loop) × (run l (r ∷ rs) ≡ goes_on next)
      × (next.delay ≡ pos (if ltb (d * 2 ^ length rs) m then d * 2 ^ length rs else m))
retries_back_off l r rs d m start top h small fails =
    let (next, e, waited) =
      back_off_from l r rs d m 0 (start ∙ ap pos (first_delay d m h)) top h small fails in
    let shift : 0 + length rs ≡ length rs = ground arith in
    (next, e, waited ∙ ap (λ (n : ℕ). pos (capped d m n)) shift)
