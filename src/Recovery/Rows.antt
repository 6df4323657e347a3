-- ===== src/Recovery/Rows.antt =====
-- What the methods of Coordinator of trading/recovery/coordinator.go do to the row of their market,
-- for any store that keeps its promises.
use qiu_market.Recovery.Provenance.{Url}
use qiu_market.Prelude.Text.{Text}
use qiu_market.Recovery.Status.{
  Coordinator, mark_continuity_uncertain, observe_epoch, effective_status,
}
use qiu_market.Recovery.Actions.{Reply, done, is_done, failed}
use qiu_market.Recovery.Coordinator.{StatusStore, World, load_row, status}
use qiu_market.Recovery.Types.{Status, RecoveryError, not_initialized}
use qiu_market.Prelude.{
  ℕ, false, Option, none, some, ◌≡◌, refl, ◌∙◌, ◌⊎◌, inl, inr, Option-cases, Bool-cases, arith,
}

-- The version that a save over this row expects.
abbrev pub row_version : Option Status → ℕ
row_version none = 0
row_version (some s) = s.version

-- What a client relies on. A load finds the row and changes none. A save of a status either leaves
-- the row of its market and fails, or replaces a row of the expected version; an error may be
-- returned then too, when the answer is lost.
pub record StatusStoreLaws (store : StatusStore) : Type 0 where
  pub row : store.Shelf → Text → Option Status
  pub load_row : (m : Text) (sh : store.Shelf) → row (store.load m sh).0 m ≡ row sh m
  pub load_found :
      (m : Text) (sh : store.Shelf) (o : Option Status)
      → (store.load m sh).1 ≡ done o
      → o ≡ row sh m
  pub save_cases :
      (n : ℕ) (s : Status) (sh : store.Shelf)
      → ((row (store.save n s sh).0 s.market_id ≡ row sh s.market_id)
          × (is_done (store.save n s sh).1 ≡ false))
        ⊎ ((row (store.save n s sh).0 s.market_id ≡ some s)
            × (row_version (row sh s.market_id) ≡ n))

pub Reply-cases {ℓ} :
    {A : Type ℓ} (r : Reply A) → ((a : A) × (r ≡ done a)) ⊎ ((e : RecoveryError) × (r ≡ failed e))
Reply-cases (done a) = inl (a, refl)
Reply-cases (failed e) = inr (e, refl)

-- A call changes neither the market nor the provenance of a coordinator.
pub record SameCoordinator (c c' : Coordinator) : Type 0 where
  pub market_eq : c'.market_id ≡ c.market_id
  pub provenance_same : c'.expected_provenance ≡ c.expected_provenance

pub same_mark : (c : Coordinator) (t : Text) → SameCoordinator c (mark_continuity_uncertain c t)
unfolding mark_continuity_uncertain
same_mark c t = elim (Bool-cases c.continuity_uncertain) [
  | inl e ↦ rw e (record { market_eq = refl; provenance_same = refl })
  | inr e ↦ rw e (record { market_eq = refl; provenance_same = refl })
]

pub same_observe : (c : Coordinator) (t : Text) → SameCoordinator c (observe_epoch c t)
unfolding observe_epoch
same_observe c t = record { market_eq = ground arith; provenance_same = ground arith }

pub same_trans :
    (a b c : Coordinator) → SameCoordinator a b → SameCoordinator b c → SameCoordinator a c
same_trans a b c p q = record {
  market_eq = q.market_eq ∙ p.market_eq;
  provenance_same = q.provenance_same ∙ p.provenance_same;
}

module _ (parse_url : Text → Option Url) (store : StatusStore) (message : RecoveryError → Text)
    (laws : StatusStoreLaws store) where
  abbrev pub V : Type 0
  V = World store

  -- The row of the coordinator's market.
  abbrev pub durable : V → Option Status
  durable w = laws.row w.shelf w.coordinator.market_id

  -- The row and the coordinator's own settings are as they were.
  pub record Same (w w' : V) : Type 0 where
    pub coordinator_same : SameCoordinator w.coordinator w'.coordinator
    pub row_same : durable w' ≡ durable w

  pub load_row-cases :
      (w : V)
      → ((sh : store.Shelf) × (load_row parse_url store message w
            ≡ (record { coordinator = w.coordinator; shelf = sh }, done (durable w)))
          × (laws.row sh w.coordinator.market_id ≡ durable w))
        ⊎ ((sh : store.Shelf) × (e : RecoveryError) × (load_row parse_url store message w ≡ (
          record { coordinator = mark_continuity_uncertain w.coordinator (message e); shelf = sh },
          failed e,
        ))
            × (laws.row sh w.coordinator.market_id ≡ durable w))
  unfolding load_row
  load_row-cases w =
      let m = w.coordinator.market_id in
      let p = store.load m w.shelf in
      elim (Reply-cases p.1) [
        | inl (o, e) ↦
            inl (p.0, rw (e, laws.load_found m w.shelf o e) refl, laws.load_row m w.shelf)
        | inr (e, h) ↦ inr (p.0, e, rw h refl, laws.load_row m w.shelf)
      ]

  -- A call of Status that returns: the row is there, and the coordinator observes its epoch.
  pub record Seen (w : V) : Type 0 where
    pub shelf : store.Shelf
    pub found : Status
    pub row_eq : durable w ≡ some found
    pub kept_eq : laws.row shelf w.coordinator.market_id ≡ durable w
    pub run_eq : status parse_url store message w ≡ (
      record { coordinator = observe_epoch w.coordinator found.epoch_id; shelf = shelf },
      done (effective_status parse_url (observe_epoch w.coordinator found.epoch_id) found),
    )

  -- A call of Status that fails: the store failed, which marks the coordinator, or has no row.
  pub record Unseen (w : V) : Type 0 where
    pub after : V
    pub why : RecoveryError
    pub run_eq : status parse_url store message w ≡ (after, failed why)
    pub kept_eq : laws.row after.shelf w.coordinator.market_id ≡ durable w
    pub coordinator_eq :
        (after.coordinator ≡ mark_continuity_uncertain w.coordinator (message why))
        ⊎ ((after.coordinator ≡ w.coordinator) × (durable w ≡ none))

  pub status-cases : (w : V) → Seen w ⊎ Unseen w
  unfolding status
  status-cases w = elim (load_row-cases w) [
    | inl (sh, e, kept) ↦ elim (Option-cases (durable w)) [
      | inl gone ↦ inr (record {
        after = record { coordinator = w.coordinator; shelf = sh };
        why = not_initialized;
        run_eq = rw (status, e, gone) refl;
        kept_eq = kept;
        coordinator_eq = inr (refl, gone);
      })
      | inr (s, there) ↦ inl (record {
        shelf = sh;
        found = s;
        row_eq = there;
        kept_eq = kept;
        run_eq = rw (status, e, there) refl;
      })
    ]
    | inr (sh, e, h, kept) ↦ inr (record {
      after = record {
        coordinator = mark_continuity_uncertain w.coordinator (message e);
        shelf = sh;
      };
      why = e;
      run_eq = rw (status, h) refl;
      kept_eq = kept;
      coordinator_eq = inl refl;
    })
  ]
