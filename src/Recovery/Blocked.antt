-- ===== src/Recovery/Blocked.antt =====
-- A coordinator of trading/recovery/coordinator.go whose store has failed within an epoch.
use qiu_market.Recovery.Steps.{row_at}
use qiu_market.Recovery.Calls.{admit-world, require_writable-world}
use qiu_market.Recovery.Actions.{Reply, is_done, done, done-injective, failed}
use qiu_market.Recovery.Rows.{StatusStoreLaws, status-cases, Reply-cases}
use qiu_market.Recovery.Coordinator.{
  StatusStore, World, admit, advance, advance_plan, change, promote_plan, require_writable, promote,
  status,
}
use qiu_market.Recovery.Provenance.{Url}
use qiu_market.Prelude.Text.{Text, is_empty, text_beq}
use qiu_market.Recovery.Status.{
  Coordinator, mark_continuity_uncertain, observe_epoch, effective_status, authorize, may_write,
}
use qiu_market.Prelude.{
  ℕ, true, false, Option, some, ◌≡◌, refl, sym, subst, ◌⊎◌, inl, inr, Bool-cases, arith, ◌==◌, ap,
  ◌∙◌,
}
use qiu_market.Recovery.Types.{
  phase_eq, Status, RecoveryError, Binding, Phase, AdmissionMode, LocalProof, TransportEvidence,
  writable,
}

-- The continuity is uncertain, and not known to be another epoch's.
abbrev pub IsUncertain : Coordinator → Text → Type 0
IsUncertain c epoch =
    (c.continuity_uncertain ≡ true)
    × ((is_empty c.continuity_epoch ≡ true) ⊎ (text_beq c.continuity_epoch epoch ≡ true))

observe-IsUncertain :
    (c : Coordinator) (epoch : Text)
    → IsUncertain c epoch
    → IsUncertain (observe_epoch c epoch) epoch
unfolding observe_epoch
observe-IsUncertain c epoch (e, inl h) = rw (e, h) (refl, inl h)
observe-IsUncertain c epoch (e, inr h) = elim (Bool-cases (is_empty c.continuity_epoch)) [
  | inl q ↦ rw (e, q) (refl, inl q)
  | inr q ↦ rw (e, q, h) (refl, inr h)
]

mark-IsUncertain :
    (c : Coordinator) (cause epoch : Text)
    → IsUncertain c epoch
    → IsUncertain (mark_continuity_uncertain c cause) epoch
unfolding mark_continuity_uncertain
mark-IsUncertain c cause epoch (e, h) = rw e (refl, h)

module _ (parse_url : Text → Option Url) where
  effective-held :
      (c : Coordinator) (s : Status)
      → IsUncertain c s.epoch_id
      → ((effective_status parse_url c s).continuity_uncertain ≡ true)
        × ((effective_status parse_url c s).writes_enabled ≡ false)
  unfolding effective_status
  effective-held c s (e, inl h) = (ground arith, ground arith)
  effective-held c s (e, inr h) = (ground arith, ground arith)

  module _ (store : StatusStore) (message : RecoveryError → Text)
      (laws : StatusStoreLaws store) where
    abbrev F : Type 0
    F = World store

    -- The continuity is still uncertain, and the row of the market is as it was.
    abbrev pub StaysUncertain : F → F → Text → Type 0
    StaysUncertain w x epoch =
        IsUncertain x.coordinator epoch
        × (laws.row x.shelf w.coordinator.market_id ≡ row_at parse_url store message laws w)

    -- A call fails, and leaves the doubt and the row.
    abbrev pub IsBlocked {ℓ} : {A : Type ℓ} → F → F × Reply A → Text → Type 0
    IsBlocked w r epoch = (is_done r.1 ≡ false) × StaysUncertain w r.0 epoch

    -- What Status comes to then: an error, or a status that is held back.
    record HeldBack (w : F) (epoch : Text) : Type 0 where
      after : F
      answer : Reply Status
      run_eq : status parse_url store message w ≡ (after, answer)
      uncertain_after : IsUncertain after.coordinator epoch
      row_kept :
          laws.row after.shelf w.coordinator.market_id ≡ row_at parse_url store message laws w
      held :
          (s : Status)
          → answer ≡ done s
          → (s.continuity_uncertain ≡ true) × (s.writes_enabled ≡ false)

    status-HeldBack :
        (w : F) (epoch : Text)
        → IsUncertain w.coordinator epoch
        → ((s : Status) → row_at parse_url store message laws w ≡ some s → s.epoch_id ≡ epoch)
        → HeldBack w epoch
    status-HeldBack w epoch unsure same = elim (status-cases parse_url store message laws w) [
      | inl q ↦
          let e = same q.found q.row_eq in
          let c = observe_epoch w.coordinator q.found.epoch_id in
          let here = subst (IsUncertain w.coordinator) (sym e) unsure in
          let still = observe-IsUncertain w.coordinator q.found.epoch_id here in
          record {
            after = record { coordinator = c; shelf = q.shelf };
            answer = done (effective_status parse_url c q.found);
            run_eq = q.run_eq;
            uncertain_after = subst (IsUncertain c) e still;
            row_kept = q.kept_eq;
            held = λ s h.
                subst (λ (z : Status). (z.continuity_uncertain ≡ true) × (z.writes_enabled ≡ false))
                  (done-injective h) (effective-held c q.found still);
          }
      | inr u ↦ record {
        after = u.after;
        answer = failed u.why;
        run_eq = u.run_eq;
        row_kept = u.kept_eq;
        uncertain_after = elim u.coordinator_eq [
          | inl e ↦ rw e (mark-IsUncertain w.coordinator (message u.why) epoch unsure)
          | inr (e, _) ↦ rw e unsure
        ];
        held = λ s h. absurd (ground arith);
      }
    ]

    HeldBack-stays :
        (w x : F) (epoch : Text) (h : HeldBack w epoch) → x ≡ h.after → StaysUncertain w x epoch
    HeldBack-stays w x epoch h e =
        subst (λ (y : F). StaysUncertain w y epoch) (sym e) (h.uncertain_after, h.row_kept)

    -- A plan that refuses a status of uncertain continuity saves nothing then.
    change-IsBlocked :
        (plan : Status → Reply Status) (w : F) (epoch : Text)
        → ((s : Status) → s.continuity_uncertain ≡ true → is_done (plan s) ≡ false)
        → HeldBack w epoch
        → IsBlocked w (change parse_url store message plan w) epoch
    unfolding change
    change-IsBlocked plan w epoch refuses h = elim (Reply-cases h.answer) [
      | inr (why, e) ↦ rw (change, h.run_eq, e) (refl, (h.uncertain_after, h.row_kept))
      | inl (s, e) ↦ elim (Reply-cases (plan s)) [
        | inr (why, no_) ↦ rw (change, h.run_eq, e, no_) (refl, (h.uncertain_after, h.row_kept))
        | inl (next, yes_) ↦
            absurd (let bad = rw yes_ at (refuses s (h.held s e).0) in ground arith)
      ]
    ]

    advance_plan-refuses :
        (phase : Phase) (proof : LocalProof) (now : ℕ) (s : Status)
        → s.continuity_uncertain ≡ true
        → is_done (advance_plan phase proof now s) ≡ false
    unfolding advance_plan
    advance_plan-refuses phase proof now s e = ground arith

    promote_plan-refuses :
        (binding : Binding) (evidence : TransportEvidence) (checked now : ℕ) (s : Status)
        → s.continuity_uncertain ≡ true
        → is_done (promote_plan parse_url binding evidence checked now s) ≡ false
    unfolding promote_plan
    promote_plan-refuses binding evidence checked now s e = ground arith

    admit-blocked :
        (mode : AdmissionMode) (account : Text) (w : F) (epoch : Text)
        → HeldBack w epoch
        → is_done (admit parse_url store message mode account w).1 ≡ false
    unfolding admit authorize
    admit-blocked mode account w epoch h = elim (Reply-cases h.answer) [
      | inr (why, e) ↦ rw (admit, h.run_eq, e) refl
      | inl (s, e) ↦ rw (admit, h.run_eq, e, authorize, (h.held s e).0) refl
    ]

    require_writable-blocked :
        (w : F) (epoch : Text)
        → HeldBack w epoch
        → is_done (require_writable parse_url store message w).1 ≡ false
    unfolding require_writable
    require_writable-blocked w epoch h = elim (Reply-cases h.answer) [
      | inr (why, e) ↦ rw (require_writable, h.run_eq, e) refl
      | inl (s, e) ↦
          let no_ : may_write parse_url s ≡ false = let q = (h.held s e).1 in ground arith in
          rw (require_writable, h.run_eq, e, no_) refl
    ]

    advance-IsBlocked :
        (phase : Phase) (proof : LocalProof) (now : ℕ) (w : F) (epoch : Text)
        → IsUncertain w.coordinator epoch
        → HeldBack w epoch
        → IsBlocked w (advance parse_url store message phase proof now w) epoch
    unfolding advance
    advance-IsBlocked phase proof now w epoch unsure h = elim (Bool-cases (phase == writable)) [
      | inl e ↦ rw (advance, e) (refl, (unsure, refl))
      | inr e ↦
          rw (advance, e)
            (change-IsBlocked (advance_plan phase proof now) w epoch
              (advance_plan-refuses phase proof now) h)
    ]

    -- While the continuity of a store is uncertain within the epoch of the row, nothing goes on:
    -- whatever the store answers under its promises, every admission, RequireWritable, every Advance
    -- and every Promote fail. Behind each of these calls, and behind Status, the continuity is still
    -- uncertain within that epoch and the row of the market is as it was.
    pub doubt_blocks :
        (w : F) (epoch : Text) (mode : AdmissionMode) (account : Text) (phase : Phase)
        (proof : LocalProof) (binding : Binding) (evidence : TransportEvidence) (checked now : ℕ)
        → IsUncertain w.coordinator epoch
        → ((s : Status) → row_at parse_url store message laws w ≡ some s → s.epoch_id ≡ epoch)
        → IsBlocked w (admit parse_url store message mode account w) epoch
          × IsBlocked w (require_writable parse_url store message w) epoch
          × IsBlocked w (advance parse_url store message phase proof now w) epoch
          × IsBlocked w (promote parse_url store message binding evidence checked now w) epoch
          × StaysUncertain w (status parse_url store message w).0 epoch
    unfolding promote
    doubt_blocks w epoch mode account phase proof binding evidence checked now unsure same =
        let h = status-HeldBack w epoch unsure same in
        let seen = ap (λ (p : F × Reply Status). p.0) h.run_eq in
        (
          (
            admit-blocked mode account w epoch h,
            HeldBack-stays w _ epoch h (admit-world parse_url store message mode account w ∙ seen),
          ),
          (
            require_writable-blocked w epoch h,
            HeldBack-stays w _ epoch h (require_writable-world parse_url store message w ∙ seen),
          ),
          advance-IsBlocked phase proof now w epoch unsure h,
          change-IsBlocked (promote_plan parse_url binding evidence checked now) w epoch
              (promote_plan-refuses binding evidence checked now) h,
          HeldBack-stays w _ epoch h seen,
        )
