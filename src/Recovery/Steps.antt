-- ===== src/Recovery/Steps.antt =====
-- Calls on coordinators of trading/recovery/coordinator.go, of one process or of several that
-- share a store, one behind the other.
use qiu_market.Recovery.Status.{observe_epoch, Coordinator}
use qiu_market.Recovery.Durable.{Follows, IsPromoted}
use qiu_market.Recovery.Changes.{
  row_of-at, IsKeyed, coordinator_held, Committed, change-Changed, effective-keeps,
}
use qiu_market.Prelude.Int.{word_mod}
use qiu_market.Recovery.Actions.{Reply, done}
use qiu_market.Recovery.Rows.{
  StatusStoreLaws, SameCoordinator, status-cases, durable, row_version, same_observe,
}
use qiu_market.Recovery.Coordinator.{
  StatusStore, World, status, advance, change, promote, fail_over, begin_epoch, require_writable,
  admit, validate_admission,
}
use qiu_market.Recovery.Provenance.{Url}
use qiu_market.Prelude.Text.{Text}
use qiu_market.Prelude.{
  ℕ, ◌+◌, ◌%◌, true, Option, some, ◌≡◌, refl, sym, ap, ◌∙◌, ◌⊎◌, inl, inr, suc,
}
use qiu_market.Recovery.Types.{
  phase_eq, RecoveryError, Phase, Status, LocalProof, Binding, TransportEvidence, AdmissionMode,
  Admission,
}

module _ (parse_url : Text → Option Url) (store : StatusStore)
    (message : RecoveryError → Text) where
  abbrev pub T : Type 0
  T = World store

  -- One call; in `elsewhere`, of another coordinator of the same market.
  pub data Step : T → T → Type 0 where
    observes : (w : T) → Step w (status parse_url store message w).0
    advances :
        (w : T) (phase : Phase) (proof : LocalProof) (now : ℕ)
        → Step w (advance parse_url store message phase proof now w).0
    promotes :
        (w : T) (binding : Binding) (evidence : TransportEvidence) (checked now : ℕ)
        → Step w (promote parse_url store message binding evidence checked now w).0
    fails :
        (w : T) (phase : Phase) (cause : Option Text) (now : ℕ)
        → Step w (fail_over parse_url store message phase cause now w).0
    begins_epoch :
        (w : T) (new_id : Reply Text) (now : ℕ)
        → Step w (begin_epoch parse_url store message new_id now w).0
    requires : (w : T) → Step w (require_writable parse_url store message w).0
    admits :
        (w : T) (mode : AdmissionMode) (account : Text)
        → Step w (admit parse_url store message mode account w).0
    validates : (w : T) (a : Admission) → Step w (validate_admission parse_url store message a w).0
    elsewhere :
        (w v : T) (c : Coordinator)
        → c.market_id ≡ w.coordinator.market_id
        → Step (record { coordinator = c; shelf = w.shelf }) v
        → Step w (record { coordinator = w.coordinator; shelf = v.shelf })

  -- So many calls, one behind the other.
  pub data Steps : ℕ → T → T → Type 0 where
    no_step : {w : T} → Steps 0 w w
    then_step : {n : ℕ} {w x : T} (v : T) → Step w v → Steps n v x → Steps (suc n) w x

  module _ (laws : StatusStoreLaws store) where
    abbrev pub row_at : T → Option Status
    row_at = durable parse_url store message laws

    -- What a call does to the row: nothing, or it is replaced by one of the next version, which
    -- lets writes through only if it has been promoted.
    pub record Effect (w x : T) : Type 0 where
      pub coordinator_same : SameCoordinator w.coordinator x.coordinator
      pub row_cases :
          (row_at x ≡ row_at w)
          ⊎ ((next : Status) × (row_at x ≡ some next)
              × (next.market_id ≡ w.coordinator.market_id)
              × (next.version ≡ (row_version (row_at w) + 1) % word_mod)
              × (next.writes_enabled ≡ true → IsPromoted parse_url next))

    pub unchanged : (w : T) → Effect w w
    unchanged w = record {
      coordinator_same = record { market_eq = refl; provenance_same = refl };
      row_cases = inl refl;
    }

    pub status-Effect : (w : T) → Effect w (status parse_url store message w).0
    status-Effect w = elim (status-cases parse_url store message laws w) [
      | inl q ↦ rw q.run_eq (record {
        coordinator_same = same_observe w.coordinator q.found.epoch_id;
        row_cases = inl (
            row_of-at parse_url store message laws
              (record {
                coordinator = observe_epoch w.coordinator q.found.epoch_id;
                shelf = q.shelf;
              })
              w.coordinator.market_id (row_at w)
              (same_observe w.coordinator q.found.epoch_id).market_eq q.kept_eq);
      })
      | inr u ↦
          let same = coordinator_held parse_url store message laws w u in
          rw u.run_eq (record {
            coordinator_same = same;
            row_cases = inl (
                row_of-at parse_url store message laws u.after w.coordinator.market_id (row_at w)
                  same.market_eq u.kept_eq);
          })
    ]

    committed :
        (plan : Status → Reply Status) (w x : T)
        → ((s next : Status) → plan s ≡ done next → Follows parse_url s next)
        → IsKeyed parse_url store message laws w
        → Committed parse_url store message laws plan w x
        → (next : Status) × (row_at x ≡ some next)
          × (next.market_id ≡ w.coordinator.market_id)
          × (next.version ≡ (row_version (row_at w) + 1) % word_mod)
          × (next.writes_enabled ≡ true → IsPromoted parse_url next)
    committed plan w x follows keyed c =
        let f = follows c.seen c.next c.plan_eq in
        let (m, v, _, _) =
          effective-keeps parse_url store message laws
            (observe_epoch w.coordinator c.found.epoch_id) c.found in
        let market = ap (λ (s : Status). s.market_id) (sym c.seen_eq) ∙ m in
        let version = ap (λ (s : Status). s.version) (sym c.seen_eq) ∙ v in
        (
          c.next,
          c.saved_eq,
          f.market_eq ∙ market ∙ keyed c.found c.row_eq,
          f.version_eq
              ∙ ap (λ (k : ℕ). (k + 1) % word_mod) (version ∙ ap row_version (sym c.row_eq)),
          f.promoted,
        )

    pub change-Effect :
        (plan : Status → Reply Status) (w : T)
        → ((s next : Status) → plan s ≡ done next → Follows parse_url s next)
        → IsKeyed parse_url store message laws w
        → Effect w (change parse_url store message plan w).0
    change-Effect plan w follows keyed =
        let r =
          change-Changed parse_url store message laws plan w (λ s n e. (follows s n e).market_eq)
            keyed in
        rw r.run_eq (record {
          coordinator_same = r.coordinator_same;
          row_cases = elim r.row_cases [
            | inl (kept, _) ↦ inl kept
            | inr (c, _) ↦ inr (committed plan w r.after follows keyed c)
          ];
        })
