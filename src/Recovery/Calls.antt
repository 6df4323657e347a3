-- ===== src/Recovery/Calls.antt =====
-- The effect of each call of a method of trading/recovery/coordinator.go on the row of its market.
use qiu_market.Recovery.Steps.{
  observes, advances, promotes, fails, begins_epoch, requires, admits, validates, elsewhere,
  status-Effect, unchanged, change-Effect,
}
use qiu_market.Recovery.Durable.{
  IsPromoted, advance_plan-Follows, promote_plan-Follows, fail_plan-Follows,
}
use qiu_market.Prelude.Int.{word_mod}
use qiu_market.Recovery.Changes.{begin_epoch-Begun, IsKeyed}
use qiu_market.Recovery.Status.{authorize, may_write, Coordinator}
use qiu_market.Recovery.Steps.{Effect, Step}
use qiu_market.Recovery.Rows.{StatusStoreLaws, row_version}
use qiu_market.Recovery.Coordinator.{
  StatusStore, World, admit, require_writable, validate_admission, advance, status, begin_epoch,
  fail_over, still_bound, blocked, promote, first_status, advance_plan, promote_plan, fail_plan,
}
use qiu_market.Recovery.Provenance.{Url}
use qiu_market.Recovery.Actions.{fail_if, Reply, Act, and_then, done, failed}
use qiu_market.Prelude.Text.{Text}
use qiu_market.Prelude.{
  ℕ, ◌+◌, ◌%◌, true, false, Bool, Option, ◌≡◌, refl, sym, ap, ◌∙◌, inl, inr, Bool-cases, arith,
  ◌==◌, not, ◌&&◌,
}
use qiu_market.Recovery.Types.{
  phase_eq, RecoveryError, Admission, AdmissionMode, write_blocked, Status, writable, offline,
  manual_review,
}

-- A call that may only fail leaves the state.
fail_if-world {ℓ} : {W : Type ℓ} (b : Bool) (e : RecoveryError) (w : W) → (fail_if b e w).0 ≡ w
fail_if-world true e w = refl
fail_if-world false e w = refl

module _ (parse_url : Text → Option Url) (store : StatusStore)
    (message : RecoveryError → Text) where
  abbrev pub R : Type 0
  R = World store

  blocked-world {ℓ κ} :
      {A : Type ℓ} {B : Type κ} (p : R × Reply A) (k : A → Act R B)
      → ((a : A) (w : R) → (k a w).0 ≡ w)
      → (and_then (blocked parse_url store message p) k).0 ≡ p.0
  blocked-world (w, done a) k h = h a w
  blocked-world (w, failed e) k h = refl

  then-world {ℓ κ} :
      {A : Type ℓ} {B : Type κ} (p : R × Reply A) (k : A → Act R B)
      → ((a : A) (w : R) → (k a w).0 ≡ w)
      → (and_then p k).0 ≡ p.0
  then-world (w, done a) k h = h a w
  then-world (w, failed e) k h = refl

  pub require_writable-world :
      (w : R)
      → (require_writable parse_url store message w).0 ≡ (status parse_url store message w).0
  unfolding require_writable
  require_writable-world w =
      blocked-world (status parse_url store message w) _
        (λ current v. fail_if-world (not (may_write parse_url current)) write_blocked v)

  pub admit-world :
      (mode : AdmissionMode) (account : Text) (w : R)
      → (admit parse_url store message mode account w).0 ≡ (status parse_url store message w).0
  unfolding admit
  admit-world mode account w = blocked-world (status parse_url store message w) _ (λ current v.
      then-world (fail_if (not (authorize parse_url current mode account)) write_blocked v) _
        (λ _ x. refl)
      ∙ fail_if-world (not (authorize parse_url current mode account)) write_blocked v)

  pub validate_admission-world :
      (a : Admission) (w : R)
      → (validate_admission parse_url store message a w).0 ≡ (status parse_url store message w).0
  unfolding validate_admission
  validate_admission-world a w = blocked-world (status parse_url store message w) _ (λ current v.
      then-world (fail_if (not (still_bound parse_url store message current a)) write_blocked v) _
        (λ _ x.
          fail_if-world (not (authorize parse_url current a.mode a.account_id)) write_blocked x)
      ∙ fail_if-world (not (still_bound parse_url store message current a)) write_blocked v)

  module _ (laws : StatusStoreLaws store) where
    first_status-fresh :
        (c : Coordinator) (n : ℕ) (epoch : Text) (now : ℕ)
        → ((first_status parse_url store message c n epoch now).market_id ≡ c.market_id)
          × ((first_status parse_url store message c n epoch now).version ≡ (n + 1) % word_mod)
          × ((first_status parse_url store message c n epoch now).writes_enabled ≡ true
              → IsPromoted parse_url (first_status parse_url store message c n epoch now))
    unfolding first_status
    first_status-fresh c n epoch now = (refl, refl, λ h. absurd (ground arith))

    moved_elsewhere :
        (w v : R) (c : Coordinator)
        → c.market_id ≡ w.coordinator.market_id
        → Effect parse_url store message laws (record { coordinator = c; shelf = w.shelf }) v
        → Effect parse_url store message laws w
            (record { coordinator = w.coordinator; shelf = v.shelf })
    moved_elsewhere w v c e f =
        let there = ap (laws.row v.shelf) (sym (f.coordinator_same.market_eq ∙ e)) in
        let here = ap (laws.row w.shelf) e in
        record {
          coordinator_same = record { market_eq = refl; provenance_same = refl };
          row_cases = elim f.row_cases [
            | inl kept ↦ inl (there ∙ kept ∙ here)
            | inr (next, made, market, version, promoted) ↦ inr (
              next,
              there ∙ made,
              market ∙ e,
              version ∙ ap (λ (o : Option Status). (row_version o + 1) % word_mod) here,
              promoted,
            )
          ];
        }

    begun-Effect :
        (new_id : Reply Text) (now : ℕ) (w : R)
        → Effect parse_url store message laws w (begin_epoch parse_url store message new_id now w).0
    begun-Effect new_id now w =
        let b = begin_epoch-Begun parse_url store message laws new_id now w in
        record {
          coordinator_same = b.coordinator_same;
          row_cases = elim b.row_cases [
            | inl kept ↦ inl kept
            | inr (epoch, made) ↦
                let (m, v, p) = first_status-fresh w.coordinator _ epoch now in
                inr (_, made, m, v, p)
          ];
        }

    pub Step-Effect :
        (w x : R)
        → IsKeyed parse_url store message laws w
        → Step parse_url store message w x
        → Effect parse_url store message laws w x
    unfolding advance fail_over promote
    Step-Effect w _ keyed (observes _) = status-Effect parse_url store message laws w
    Step-Effect w _ keyed (advances _ phase proof now) = elim (Bool-cases (phase == writable)) [
      | inl e ↦ rw e (unchanged parse_url store message laws w)
      | inr e ↦ rw e (
          change-Effect parse_url store message laws (advance_plan phase proof now) w
            (λ s n h. advance_plan-Follows parse_url phase proof now s n e h) keyed)
    ]
    Step-Effect w _ keyed (promotes _ binding evidence checked now) =
        change-Effect parse_url store message laws
          (promote_plan parse_url binding evidence checked now) w
          (promote_plan-Follows parse_url binding evidence checked now) keyed
    Step-Effect w _ keyed (fails _ phase cause now) =
        elim (Bool-cases (not (phase == offline) && not (phase == manual_review))) [
          | inl e ↦ rw e (unchanged parse_url store message laws w)
          | inr e ↦ rw e (
              change-Effect parse_url store message laws (fail_plan phase cause now) w
                (fail_plan-Follows parse_url phase cause now) keyed)
        ]
    Step-Effect w _ keyed (begins_epoch _ new_id now) = begun-Effect new_id now w
    Step-Effect w _ keyed (requires _) =
        rw (require_writable-world w) (status-Effect parse_url store message laws w)
    Step-Effect w _ keyed (admits _ mode account) =
        rw (admit-world mode account w) (status-Effect parse_url store message laws w)
    Step-Effect w _ keyed (validates _ a) =
        rw (validate_admission-world a w) (status-Effect parse_url store message laws w)
    Step-Effect w _ keyed (elsewhere _ v c e other) = moved_elsewhere w v c e (
        Step-Effect (record { coordinator = c; shelf = w.shelf }) v
          (λ s there. keyed s (ap (laws.row w.shelf) (sym e) ∙ there) ∙ sym e) other)
