-- ===== src/Recovery/Warmup.antt =====
-- The way from Begin to the writable phase of trading/recovery/coordinator.go, over the store in
-- memory, which answers every call.
use qiu_market.Recovery.Memory.{load, save}
use qiu_market.Recovery.Rows.{same_observe}
use qiu_market.Prelude.Int.{word_mod}
use qiu_market.Prelude.Dict.{lookup, insert, lookup-insert}
use qiu_market.Recovery.Actions.{Act, Reply, done}
use qiu_market.Recovery.Status.{effective_status, observe_epoch, Coordinator}
use qiu_market.Recovery.Provenance.{Url, valid_provenance}
use qiu_market.Recovery.Memory.{memory_store, conflicts, MemoryStore}
use qiu_market.Prelude.Text.{Text, text_eq}
use qiu_market.Recovery.Coordinator.{World, change, save_row, status, load_row}
use qiu_market.Prelude.{
  ℕ, ◌+◌, ◌%◌, true, false, Option, some, ◌≡◌, refl, sym, ap, subst, ◌∙◌, inl, inr, Bool-cases,
  arith, ◌==◌, not, ◌||◌, eqb, ==-refl,
}
use qiu_market.Recovery.Types.{phase_eq, provenance_eq, Provenance, RecoveryError, Status}

abbrev pub Q : Type 0
Q = World memory_store

same_provenance : (a b : Provenance) → a ≡ b → (a == b) ≡ true
same_provenance a b e = (provenance_eq.beq_iff a b).1 e

pub no_clash :
    (n v : ℕ) → v ≡ (n + 1) % word_mod → (not (eqb n n) || not (eqb v ((n + 1) % word_mod))) ≡ false
no_clash n v e = ground arith

module _ (parse_url : Text → Option Url) (message : RecoveryError → Text) where
  -- The row of the market is this status, and nothing holds it back.
  pub record Clear (w : Q) (s : Status) : Type 0 where
    pub certain : w.coordinator.continuity_uncertain ≡ false
    pub row_eq : lookup w.coordinator.market_id w.shelf.current ≡ some s
    pub market_eq : s.market_id ≡ w.coordinator.market_id
    pub provenance_same : s.provenance ≡ w.coordinator.expected_provenance
    pub steady : s.continuity_uncertain ≡ false

  pub effective-Clear :
      (c : Coordinator) (s : Status)
      → c.continuity_uncertain ≡ false
      → s.provenance ≡ c.expected_provenance
      → effective_status parse_url c s ≡ s
  unfolding effective_status
  effective-Clear c s certain same =
      let match = same_provenance s.provenance c.expected_provenance same in
      elim (Bool-cases (valid_provenance parse_url c.expected_provenance)) [
        | inl e ↦ rw (e, match, certain) refl
        | inr e ↦ rw (e, certain) refl
      ]

  observe-certain :
      (c : Coordinator) (t : Text)
      → c.continuity_uncertain ≡ false
      → (observe_epoch c t).continuity_uncertain ≡ false
  unfolding observe_epoch
  observe-certain c t e = ground arith

  -- A status that follows another, as far as the store and the coordinator ask.
  pub record Succeeds (s next : Status) : Type 0 where
    pub market_eq : next.market_id ≡ s.market_id
    pub provenance_same : next.provenance ≡ s.provenance
    pub version_eq : next.version ≡ (s.version + 1) % word_mod
    pub steady : next.continuity_uncertain ≡ s.continuity_uncertain

  pub record Went (m : Act Q Status) (w : Q) (next : Status) : Type 0 where
    pub after : Q
    pub run_eq : m w ≡ (after, done next)
    pub clear : Clear after next

  pub status-Clear :
      (w : Q) (s : Status)
      → Clear w s
      → status parse_url memory_store message w
        ≡ (record { coordinator = observe_epoch w.coordinator s.epoch_id; shelf = w.shelf }, done s)
  unfolding status load_row load
  status-Clear w s k =
      rw (status, load_row, k.row_eq)
        (rw
          (effective-Clear (observe_epoch w.coordinator s.epoch_id) s
            (observe-certain w.coordinator s.epoch_id k.certain)
            (k.provenance_same ∙ sym (same_observe w.coordinator s.epoch_id).provenance_same))
          refl)

  pub saved-Clear :
      (w : Q) (m : Text) (n : ℕ) (o : Option Status) (next : Status)
      → next.market_id ≡ m
      → lookup m w.shelf.current ≡ o
      → conflicts o n next ≡ false
      → (sh : MemoryStore) × (save_row parse_url memory_store message n next w
          ≡ (record { coordinator = w.coordinator; shelf = sh }, done tt))
        × (lookup m sh.current ≡ some next)
  unfolding save_row save
  saved-Clear w m n o next e there free =
      let at = ap (λ (t : Text). lookup t w.shelf.current) e ∙ there in
      let fine : conflicts (lookup next.market_id w.shelf.current) n next ≡ false =
        subst (λ (p : Option Status). conflicts p n next ≡ false) (sym at) free in
      let found : lookup m (insert next.market_id next w.shelf.current) ≡ some next =
        subst (λ (t : Text). lookup t (insert next.market_id next w.shelf.current) ≡ some next) e
          (rw
            (
              lookup-insert next.market_id next.market_id next w.shelf.current,
              ==-refl next.market_id,
            )
            refl) in
      ((save n next w.shelf).0, rw (save_row, save, fine) refl, rw (save, fine) found)

  pub change-Clear :
      (plan : Status → Reply Status) (w : Q) (s next : Status)
      → Clear w s
      → plan s ≡ done next
      → Succeeds s next
      → Went (change parse_url memory_store message plan) w next
  unfolding change
  change-Clear plan w s next k e f =
      let c = observe_epoch w.coordinator s.epoch_id in
      let same = same_observe w.coordinator s.epoch_id in
      let (sh, saved, found) =
        saved-Clear (record { coordinator = c; shelf = w.shelf }) w.coordinator.market_id s.version
          (some s) next (f.market_eq ∙ k.market_eq) k.row_eq
          (no_clash s.version next.version f.version_eq) in
      record {
        after = record { coordinator = c; shelf = sh };
        run_eq = rw (change, status-Clear w s k, e, saved) refl;
        clear = record {
          certain = observe-certain w.coordinator s.epoch_id k.certain;
          row_eq = ap (λ (t : Text). lookup t sh.current) same.market_eq ∙ found;
          market_eq = f.market_eq ∙ k.market_eq ∙ sym same.market_eq;
          provenance_same = f.provenance_same ∙ k.provenance_same ∙ sym same.provenance_same;
          steady = f.steady ∙ k.steady;
        };
      }
