-- ===== src/Recovery/Fence.antt =====
-- The promises of trading/recovery/coordinator.go: what lets writes through, and the fence that an
-- admission passes a second time when its command is dequeued.
use qiu_market.Recovery.Changes.{effective-keeps}
use qiu_market.Recovery.Steps.{admits}
use qiu_market.Recovery.Actions.{done, fail_if-passed, done-injective}
use qiu_market.Recovery.Status.{may_write, observe_epoch, effective_status, authorize}
use qiu_market.Prelude.Int.{word_mod}
use qiu_market.Recovery.Calls.{Step-Effect}
use qiu_market.Recovery.Durable.{IsPromoted}
use qiu_market.Recovery.Rows.{StatusStoreLaws, row_version, status-cases}
use qiu_market.Recovery.Coordinator.{StatusStore, World, admit, validate_admission, still_bound}
use qiu_market.Recovery.Provenance.{Url, valid_transport_evidence}
use qiu_market.Prelude.Text.{Text}
use qiu_market.Recovery.Steps.{no_step, then_step, Effect, Steps, row_at}
use qiu_market.Prelude.{
  ℕ, ◌+◌, ◌%◌, ◌<◌, ◌≤◌, true, false, Option, none, some, ◌≡◌, refl, sym, ap, subst, ◌∙◌, ◌⊎◌, inl,
  inr, arith, not, zero, suc,
}
use qiu_market.Recovery.Types.{
  phase_eq, RecoveryError, Status, AdmissionMode, Admission, write_blocked,
}

pub some-injective {ℓ} : {A : Type ℓ} {a b : A} → some a ≡ some b → a ≡ b
some-injective h = cc

-- The version of a row behind one change or none, and then so many more.
later_row :
    (k : ℕ) (a b c : Option Status) (n : ℕ)
    → row_version a ≡ k
    → k + suc n < word_mod
    → (b ≡ a) ⊎ (row_version b ≡ (k + 1) % word_mod)
    → (row_version b + n < word_mod
        → (row_version c ≤ row_version b + n) × ((c ≡ b) ⊎ (row_version b < row_version c)))
    → (row_version c ≤ k + suc n) × ((c ≡ a) ⊎ (k < row_version c))
later_row k a b c n e h (inl same) rest =
    let v : row_version b ≡ k = ap row_version same ∙ e in
    let (top, cases) = rest (ground arith) in
    (ground arith, elim cases [ inl e2 ↦ inl (e2 ∙ same) | inr more ↦ inr (ground arith) ])
later_row k a b c n e h (inr next) rest =
    let one : row_version b ≡ k + 1 = ground arith in
    let (top, cases) = rest (ground arith) in
    (
      ground arith,
      elim cases [ inl e2 ↦ inr (rw e2 (ground arith)) | inr more ↦ inr (ground arith) ],
    )

module _ (parse_url : Text → Option Url) (store : StatusStore) (message : RecoveryError → Text)
    (laws : StatusStoreLaws store) where
  abbrev M : Type 0
  M = World store

  abbrev pub IsSound : M → Type 0
  IsSound w =
      (s : Status)
      → row_at parse_url store message laws w ≡ some s
      → (s.market_id ≡ w.coordinator.market_id) × (s.writes_enabled ≡ true → IsPromoted parse_url s)

  -- What calls in a row come to: the row is as it was, or of a later version.
  record Ran (n : ℕ) (w x : M) : Type 0 where
    sound : IsSound x
    market_eq : x.coordinator.market_id ≡ w.coordinator.market_id
    bounded :
        row_version (row_at parse_url store message laws w) + n < word_mod
        → (row_version (row_at parse_url store message laws x)
            ≤ row_version (row_at parse_url store message laws w) + n)
          × ((row_at parse_url store message laws x ≡ row_at parse_url store message laws w)
              ⊎ (row_version (row_at parse_url store message laws w)
                  < row_version (row_at parse_url store message laws x)))

  keeps-IsSound : (w x : M) → IsSound w → Effect parse_url store message laws w x → IsSound x
  keeps-IsSound w x sound f s there = elim f.row_cases [
    | inl kept ↦
        let (m, p) = sound s (sym kept ∙ there) in (m ∙ sym f.coordinator_same.market_eq, p)
    | inr (next, made, m, v, p) ↦
        let same : next ≡ s = some-injective (sym made ∙ there) in
        subst
          (λ (z : Status).
            (z.market_id ≡ x.coordinator.market_id)
            × (z.writes_enabled ≡ true → IsPromoted parse_url z))
          same (m ∙ sym f.coordinator_same.market_eq, p)
  ]

  steps-Ran : (n : ℕ) (w x : M) → IsSound w → Steps parse_url store message n w x → Ran n w x
  steps-Ran zero w _ sound no_step = record {
    sound = sound;
    market_eq = refl;
    bounded = λ h. (ground arith, inl refl);
  }
  steps-Ran (suc n) w x sound (then_step v first rest) =
      let f = Step-Effect parse_url store message laws w v (λ s there. (sound s there).0) first in
      let r = steps-Ran n v x (keeps-IsSound w v sound f) rest in
      record {
        sound = r.sound;
        market_eq = r.market_eq ∙ f.coordinator_same.market_eq;
        bounded = λ h.
            later_row (row_version (row_at parse_url store message laws w))
              (row_at parse_url store message laws w) (row_at parse_url store message laws v)
              (row_at parse_url store message laws x) n refl h
              (elim f.row_cases [
                | inl e ↦ inl e
                | inr (next, made, _, e, _) ↦ inr (ap row_version made ∙ e)
              ])
              r.bounded;
      }

  abbrev here : M → Option Status
  here = row_at parse_url store message laws

  -- From a store without a row for the market, and under the promises of a store, whatever calls the
  -- coordinators of the market make and whatever else the store answers, a durable status that
  -- enables writes is in the writable phase, with a complete local proof, healthy transport and valid
  -- provenance, and with transport evidence that was valid at some time.
  pub durable_writes_promoted :
      (n : ℕ) (w x : M) (s : Status)
      → here w ≡ none
      → Steps parse_url store message n w x
      → here x ≡ some s
      → s.writes_enabled ≡ true
      → (may_write parse_url s ≡ true)
        × ((now : ℕ) × (valid_transport_evidence parse_url s.transport s.provenance now ≡ true))
  durable_writes_promoted n w x s empty steps there on =
      ((steps-Ran n w x (λ z e. absurd (let h = sym empty ∙ e in ground arith)) steps).sound s
          there).1
        on

  -- What an admission holds of the row that it was given for.
  admit-row :
      (mode : AdmissionMode) (account : Text) (w : M) (a : Admission)
      → (admit parse_url store message mode account w).1 ≡ done a
      → (s : Status) × (here w ≡ some s) × (a.version ≡ s.version)
  unfolding admit
  admit-row mode account w a e = elim (status-cases parse_url store message laws w) [
    | inr u ↦ absurd (let h = rw (admit, u.run_eq) at e in ground arith)
    | inl q ↦
        let c = observe_epoch w.coordinator q.found.epoch_id in
        let seen = effective_status parse_url c q.found in
        let (_, h) =
          fail_if-passed (not (authorize parse_url seen mode account)) write_blocked
            (record { coordinator = c; shelf = q.shelf }) _ (rw (admit, q.run_eq) at e) in
        let version = ap (λ (z : Admission). z.version) (done-injective h) in
        (
          q.found,
          q.row_eq,
          sym version ∙ (effective-keeps parse_url store message laws c q.found).1,
        )
  ]

  bound-version :
      (s : Status) (a : Admission)
      → not (still_bound parse_url store message s a) ≡ false
      → a.version ≡ s.version
  unfolding still_bound
  bound-version s a h = ground arith

  validate_admission-row :
      (x : M) (a : Admission)
      → (validate_admission parse_url store message a x).1 ≡ done tt
      → (s : Status) × (here x ≡ some s) × (a.version ≡ s.version)
  unfolding validate_admission
  validate_admission-row x a e = elim (status-cases parse_url store message laws x) [
    | inr u ↦ absurd (let h = rw (validate_admission, u.run_eq) at e in ground arith)
    | inl q ↦
        let c = observe_epoch x.coordinator q.found.epoch_id in
        let seen = effective_status parse_url c q.found in
        let (bound, _) =
          fail_if-passed (not (still_bound parse_url store message seen a)) write_blocked
            (record { coordinator = c; shelf = q.shelf }) _
            (rw (validate_admission, q.run_eq) at e) in
        (
          q.found,
          q.row_eq,
          bound-version seen a bound ∙ (effective-keeps parse_url store message laws c q.found).1,
        )
  ]

  -- An admission that is validated again has not been overtaken: whatever n calls were made in
  -- between, by any coordinators of the market, the durable status is the one that it was given
  -- for, as long as the version does not wrap around within n + 1 calls. The store keeps its
  -- promises, and the row at first is the market's and enables writes only if it has been promoted.
  pub validate_admission_fences :
      (mode : AdmissionMode) (account : Text) (w x : M) (a : Admission) (n : ℕ)
      → IsSound w
      → (admit parse_url store message mode account w).1 ≡ done a
      → Steps parse_url store message n (admit parse_url store message mode account w).0 x
      → (validate_admission parse_url store message a x).1 ≡ done tt
      → a.version + n + 1 < word_mod
      → here x ≡ here w
  validate_admission_fences mode account w x a n sound given steps valid room =
      let (s, before, v1) = admit-row mode account w a given in
      let (t, after, v2) = validate_admission-row x a valid in
      let w1 = (admit parse_url store message mode account w).0 in
      let r = steps-Ran (suc n) w x sound (then_step w1 (admits w mode account) steps) in
      let first = ap row_version before in
      let last = ap row_version after in
      let (_, cases) = r.bounded (rw (first, ← v1) (ground arith)) in
      elim cases [
        | inl same ↦ same
        | inr more ↦ absurd (let h = rw (first, last) at more in ground arith)
      ]
