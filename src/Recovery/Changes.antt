-- ===== src/Recovery/Changes.antt =====
-- What Advance, Promote, Fail and Begin of trading/recovery/coordinator.go save.
use qiu_market.Recovery.Status.{
  effective_status, mark_continuity_uncertain, observe_epoch, Coordinator, observe_new_epoch,
}
use qiu_market.Recovery.Actions.{Reply, done, failed, is_done}
use qiu_market.Recovery.Rows.{
  StatusStoreLaws, Reply-cases, SameCoordinator, durable, same_mark, row_version, Seen,
  same_observe, same_trans, Unseen, status-cases, load_row-cases,
}
use qiu_market.Recovery.Coordinator.{
  StatusStore, World, save_row, change, first_status, save_first, begin_epoch,
}
use qiu_market.Recovery.Provenance.{Url, valid_provenance}
use qiu_market.Prelude.Text.{Text}
use qiu_market.Prelude.{
  ℕ, false, Option, some, ◌≡◌, refl, sym, ap, subst, ◌∙◌, ◌⊎◌, inl, inr, Option-cases, Bool-cases,
  arith,
}
use qiu_market.Recovery.Types.{phase_eq, RecoveryError, Status}

module _ (parse_url : Text → Option Url) (store : StatusStore) (message : RecoveryError → Text)
    (laws : StatusStoreLaws store) where
  abbrev pub U : Type 0
  U = World store

  abbrev row_of : U → Option Status
  row_of = durable parse_url store message laws

  -- A call of Save by a coordinator.
  pub record Saved (w : U) (n : ℕ) (next : Status) (m : Text) : Type 0 where
    pub after : U
    pub answer : Reply (Unit {0})
    pub run_eq : save_row parse_url store message n next w ≡ (after, answer)
    pub coordinator_cases :
        ((answer ≡ done tt) × (after.coordinator ≡ w.coordinator))
        ⊎ ((e : RecoveryError) × (answer ≡ failed e)
            × (after.coordinator ≡ mark_continuity_uncertain w.coordinator (message e)))
    pub row_cases :
        ((laws.row after.shelf m ≡ laws.row w.shelf m) × (is_done answer ≡ false))
        ⊎ ((laws.row after.shelf m ≡ some next) × (row_version (laws.row w.shelf m) ≡ n))

  pub save_row-Saved :
      (w : U) (n : ℕ) (next : Status) (m : Text) → next.market_id ≡ m → Saved w n next m
  unfolding save_row
  save_row-Saved w n next m there =
      let p = store.save n next w.shelf in
      let found =
        subst
          (λ (k : Text).
            ((laws.row p.0 k ≡ laws.row w.shelf k) × (is_done p.1 ≡ false))
            ⊎ ((laws.row p.0 k ≡ some next) × (row_version (laws.row w.shelf k) ≡ n)))
          there (laws.save_cases n next w.shelf) in
      elim (Reply-cases p.1) [
        | inl (_, e) ↦ record {
          after = record { coordinator = w.coordinator; shelf = p.0 };
          answer = done tt;
          run_eq = rw e refl;
          coordinator_cases = inl (refl, refl);
          row_cases = rw e at found;
        }
        | inr (why, e) ↦ record {
          after = record {
            coordinator = mark_continuity_uncertain w.coordinator (message why);
            shelf = p.0;
          };
          answer = failed why;
          run_eq = rw e refl;
          coordinator_cases = inr (why, refl, refl);
          row_cases = rw e at found;
        }
      ]

  pub coordinator_kept :
      (w : U) (n : ℕ) (next : Status) (m : Text) (r : Saved w n next m)
      → SameCoordinator w.coordinator r.after.coordinator
  coordinator_kept w n next m r = elim r.coordinator_cases [
    | inl (_, e) ↦ rw e (record { market_eq = refl; provenance_same = refl })
    | inr (why, _, e) ↦ rw e (same_mark w.coordinator (message why))
  ]

  -- A plan keeps the market of a status.
  abbrev pub KeepsMarket : (Status → Reply Status) → Type 0
  KeepsMarket plan = (s next : Status) → plan s ≡ done next → next.market_id ≡ s.market_id

  -- The row of a market has that market's id.
  abbrev pub IsKeyed : U → Type 0
  IsKeyed w = (s : Status) → row_of w ≡ some s → s.market_id ≡ w.coordinator.market_id

  -- A change that reaches the row: the plan has passed on the row that it replaces.
  pub record Committed (plan : Status → Reply Status) (w w' : U) : Type 0 where
    pub found : Status
    pub seen : Status
    pub next : Status
    pub row_eq : row_of w ≡ some found
    pub seen_eq :
        effective_status parse_url (observe_epoch w.coordinator found.epoch_id) found ≡ seen
    pub plan_eq : plan seen ≡ done next
    pub saved_eq : row_of w' ≡ some next

  pub record Changed (plan : Status → Reply Status) (w : U) : Type 0 where
    pub after : U
    pub answer : Reply Status
    pub run_eq : change parse_url store message plan w ≡ (after, answer)
    pub coordinator_same : SameCoordinator w.coordinator after.coordinator
    pub row_cases :
        ((row_of after ≡ row_of w) × (is_done answer ≡ false))
        ⊎ ((c : Committed plan w after) × ((answer ≡ done c.next) ⊎ (is_done answer ≡ false)))

  pub effective-keeps :
      (c : Coordinator) (s : Status)
      → ((effective_status parse_url c s).market_id ≡ s.market_id)
        × ((effective_status parse_url c s).version ≡ s.version)
        × ((effective_status parse_url c s).epoch_id ≡ s.epoch_id)
        × ((effective_status parse_url c s).phase ≡ s.phase)
  unfolding effective_status
  effective-keeps c s = (ground arith, ground arith, ground arith, ground arith)

  pub row_of-at :
      (w : U) (m : Text) (o : Option Status)
      → w.coordinator.market_id ≡ m
      → laws.row w.shelf m ≡ o
      → row_of w ≡ o
  row_of-at w m o e h = ap (laws.row w.shelf) e ∙ h

  pub coordinator_held :
      (w : U) (u : Unseen parse_url store message laws w)
      → SameCoordinator w.coordinator u.after.coordinator
  coordinator_held w u = elim u.coordinator_eq [
    | inl e ↦ rw e (same_mark w.coordinator (message u.why))
    | inr (e, _) ↦ rw e (record { market_eq = refl; provenance_same = refl })
  ]

  refused_change :
      (plan : Status → Reply Status) (w : U) (q : Seen parse_url store message laws w)
      (why : RecoveryError)
      → plan (effective_status parse_url (observe_epoch w.coordinator q.found.epoch_id) q.found)
        ≡ failed why
      → Changed plan w
  unfolding change
  refused_change plan w q why e =
      let same = same_observe w.coordinator q.found.epoch_id in
      record {
        after = record {
          coordinator = observe_epoch w.coordinator q.found.epoch_id;
          shelf = q.shelf;
        };
        answer = failed why;
        run_eq = rw (change, q.run_eq, e) refl;
        coordinator_same = same;
        row_cases = inl (rw same.market_eq q.kept_eq, refl);
      }

  saved_change :
      (plan : Status → Reply Status) (w : U) (q : Seen parse_url store message laws w)
      (next : Status)
      → KeepsMarket plan
      → IsKeyed w
      → plan (effective_status parse_url (observe_epoch w.coordinator q.found.epoch_id) q.found)
        ≡ done next
      → Changed plan w
  unfolding change
  saved_change plan w q next keeps keyed e =
      let c = observe_epoch w.coordinator q.found.epoch_id in
      let seen = effective_status parse_url c q.found in
      let same = same_observe w.coordinator q.found.epoch_id in
      let v : U = record { coordinator = c; shelf = q.shelf } in
      let there : next.market_id ≡ w.coordinator.market_id =
        keeps seen next e ∙ (effective-keeps c q.found).0 ∙ keyed q.found q.row_eq in
      let r = save_row-Saved v seen.version next w.coordinator.market_id there in
      let all =
        same_trans w.coordinator c r.after.coordinator same
          (coordinator_kept v seen.version next w.coordinator.market_id r) in
      elim r.row_cases [
        | inl (kept, bad) ↦ elim (Reply-cases r.answer) [
          | inl (_, ok_) ↦ absurd (let h = rw ok_ at bad in ground arith)
          | inr (why, no_) ↦ record {
            after = r.after;
            answer = failed why;
            run_eq = rw (change, q.run_eq, e, r.run_eq, no_) refl;
            coordinator_same = all;
            row_cases = inl (
              row_of-at r.after w.coordinator.market_id (row_of w) all.market_eq (kept ∙ q.kept_eq),
              refl,
            );
          }
        ]
        | inr (made, _) ↦
            let c2 : Committed plan w r.after = record {
              found = q.found;
              seen = seen;
              next = next;
              row_eq = q.row_eq;
              seen_eq = refl;
              plan_eq = e;
              saved_eq = row_of-at r.after w.coordinator.market_id (some next) all.market_eq made;
            } in
            elim (Reply-cases r.answer) [
              | inl (_, ok_) ↦ record {
                after = r.after;
                answer = done next;
                run_eq = rw (change, q.run_eq, e, r.run_eq, ok_) refl;
                coordinator_same = all;
                row_cases = inr (c2, inl refl);
              }
              | inr (why, no_) ↦ record {
                after = r.after;
                answer = failed why;
                run_eq = rw (change, q.run_eq, e, r.run_eq, no_) refl;
                coordinator_same = all;
                row_cases = inr (c2, inr refl);
              }
            ]
      ]

  pub change-Changed :
      (plan : Status → Reply Status) (w : U) → KeepsMarket plan → IsKeyed w → Changed plan w
  unfolding change
  change-Changed plan w keeps keyed = elim (status-cases parse_url store message laws w) [
    | inr u ↦ record {
      after = u.after;
      answer = failed u.why;
      run_eq = rw (change, u.run_eq) refl;
      coordinator_same = coordinator_held w u;
      row_cases = inl (
        row_of-at u.after w.coordinator.market_id (row_of w) (coordinator_held w u).market_eq
            u.kept_eq,
        refl,
      );
    }
    | inl q ↦
        elim (Reply-cases (
          plan
            (effective_status parse_url (observe_epoch w.coordinator q.found.epoch_id) q.found))) [
              | inl (next, e) ↦ saved_change plan w q next keeps keyed e
              | inr (why, e) ↦ refused_change plan w q why e
            ]
  ]

  -- What Begin does: nothing to the row, or a row of a new epoch over the version that it found.
  pub record Begun (now : ℕ) (w w' : U) : Type 0 where
    pub coordinator_same : SameCoordinator w.coordinator w'.coordinator
    pub row_cases :
        (row_of w' ≡ row_of w)
        ⊎ ((epoch : Text) × (row_of w'
              ≡ some (
                  first_status parse_url store message w.coordinator
                    (row_version (row_of w))
                    epoch
                    now)))

  first_status-same :
      (c c' : Coordinator) (n : ℕ) (epoch : Text) (now : ℕ)
      → SameCoordinator c c'
      → first_status parse_url store message c' n epoch now
        ≡ first_status parse_url store message c n epoch now
  unfolding first_status
  first_status-same c c' n epoch now same = rw (same.market_eq, same.provenance_same) refl

  row_left-Begun :
      (now : ℕ) (w x : U)
      → SameCoordinator w.coordinator x.coordinator
      → laws.row x.shelf w.coordinator.market_id ≡ row_of w
      → Begun now w x
  row_left-Begun now w x same kept = record {
    coordinator_same = same;
    row_cases = inl (row_of-at x w.coordinator.market_id (row_of w) same.market_eq kept);
  }

  row_new-Begun :
      (now : ℕ) (w x : U) (n : ℕ) (epoch : Text)
      → SameCoordinator w.coordinator x.coordinator
      → (laws.row x.shelf w.coordinator.market_id ≡ row_of w)
        ⊎ ((laws.row x.shelf w.coordinator.market_id
              ≡ some (first_status parse_url store message w.coordinator n epoch now))
            × (row_version (row_of w) ≡ n))
      → Begun now w x
  row_new-Begun now w x n epoch same (inl kept) = row_left-Begun now w x same kept
  row_new-Begun now w x n epoch same (inr (made, e)) = record {
    coordinator_same = same;
    row_cases = inr (
      epoch,
      row_of-at x w.coordinator.market_id _ same.market_eq (
          made
          ∙ ap (λ (k : ℕ). some (first_status parse_url store message w.coordinator k epoch now))
              (sym e)),
    );
  }

  same_new : (c : Coordinator) (t : Text) → SameCoordinator c (observe_new_epoch c t)
  unfolding observe_new_epoch
  same_new c t = record { market_eq = refl; provenance_same = refl }

  first_status-market :
      (c : Coordinator) (n : ℕ) (epoch : Text) (now : ℕ)
      → (first_status parse_url store message c n epoch now).market_id ≡ c.market_id
  unfolding first_status
  first_status-market c n epoch now = refl

  -- The rest of Begin, behind what it found.
  save_first-Begun :
      (new_id : Reply Text) (now : ℕ) (w v : U) (n : ℕ)
      → SameCoordinator w.coordinator v.coordinator
      → laws.row v.shelf w.coordinator.market_id ≡ row_of w
      → Begun now w (save_first parse_url store message n new_id now v).0
  save_first-Begun (failed why) now w v n same kept = row_left-Begun now w v same kept
  save_first-Begun (done epoch) now w v n same kept =
      let m = w.coordinator.market_id in
      let next = first_status parse_url store message v.coordinator n epoch now in
      let r =
        save_row-Saved v n next m
          (first_status-market v.coordinator n epoch now ∙ same.market_eq) in
      let all =
        same_trans w.coordinator v.coordinator r.after.coordinator same
          (coordinator_kept v n next m r) in
      let rows : (laws.row r.after.shelf m ≡ row_of w)
          ⊎ ((laws.row r.after.shelf m
                ≡ some (first_status parse_url store message w.coordinator n epoch now))
              × (row_version (row_of w) ≡ n)) =
        elim r.row_cases [
          | inl (k, _) ↦ inl (k ∙ kept)
          | inr (made, e) ↦ inr (
            made ∙ ap some (first_status-same w.coordinator v.coordinator n epoch now same),
            ap row_version (sym kept) ∙ e,
          )
        ] in
      elim r.coordinator_cases [
        | inl (ok_, _) ↦
            rw (r.run_eq, ok_)
              (row_new-Begun now w
                (record {
                  coordinator = observe_new_epoch r.after.coordinator epoch;
                  shelf = r.after.shelf;
                })
                n epoch
                (same_trans w.coordinator r.after.coordinator
                  (observe_new_epoch r.after.coordinator epoch) all
                  (same_new r.after.coordinator epoch))
                rows)
        | inr (why, no_, _) ↦ rw (r.run_eq, no_) (row_new-Begun now w r.after n epoch all rows)
      ]

  pub begin_epoch-Begun :
      (new_id : Reply Text) (now : ℕ) (w : U)
      → Begun now w (begin_epoch parse_url store message new_id now w).0
  unfolding begin_epoch
  begin_epoch-Begun new_id now w =
      let none_changed : SameCoordinator w.coordinator w.coordinator = record {
        market_eq = refl;
        provenance_same = refl;
      } in
      elim (Bool-cases (valid_provenance parse_url w.coordinator.expected_provenance)) [
        | inr e ↦ rw (begin_epoch, e) (row_left-Begun now w w none_changed refl)
        | inl e ↦ elim (load_row-cases parse_url store message laws w) [
          | inr (sh, why, h, kept) ↦
              rw (begin_epoch, e, h)
                (row_left-Begun now w
                  (record {
                    coordinator = mark_continuity_uncertain w.coordinator (message why);
                    shelf = sh;
                  })
                  (same_mark w.coordinator (message why)) kept)
          | inl (sh, h, kept) ↦ elim (Option-cases (row_of w)) [
            | inl gone ↦
                rw (begin_epoch, e, h, gone)
                  (save_first-Begun new_id now w
                    (record { coordinator = w.coordinator; shelf = sh }) 0 none_changed kept)
            | inr (s, there) ↦
                rw (begin_epoch, e, h, there)
                  (save_first-Begun new_id now w
                    (record { coordinator = observe_epoch w.coordinator s.epoch_id; shelf = sh })
                    s.version (same_observe w.coordinator s.epoch_id) kept)
          ]
        ]
      ]
