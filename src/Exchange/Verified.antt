-- ===== src/Exchange/Verified.antt =====
-- What Restore of trading/exchange/exchange.go has verified of the state that it returns.
use qiu_market.Exchange.Runner.{Payload, Exchange}
use qiu_market.Prelude.Result.{
  ok, >>=-eq-ok, reject_if, relabel, recovery_diverged, ok-injective, relabel-eq-ok,
  reject_if-eq-ok, Result,
}
use qiu_market.Exchange.Validate.{validate_state}
use qiu_market.Domain.{MarketConfig}
use qiu_market.Exchange.Restore.{
  replay_all, replay_record, verify_replayed, enter_schema, replay_command, started_at,
  supported_schema_version, verify_state, restore, upgrade, starting_state,
}
use qiu_market.Store.{EventRecord, EventStore, SnapshotStore}
use qiu_market.Prelude.Text.{Text, text_eq}
use qiu_market.Exchange.Types.{State}
use qiu_market.Prelude.{
  [], ◌∷◌, true, false, ◌≡◌, List, ℕ, ◌++◌, not, subst, ◌==◌, ==-eq, nat_eq, arith, if◌then◌else◌,
  ltb, ◌||◌, ap,
}

module _ (state_hash : State → Text) where
  -- A state against the hash of a record.
  pub record Verified (r : EventRecord) (s : State) : Type 0 where
    pub hash_eq : state_hash s ≡ r.state_hash
    pub valid_eq : validate_state s ≡ ok tt

  verify_replayed-Verified :
      (s s' : State) (r : EventRecord) → verify_replayed state_hash true s r ≡ ok s' → Verified r s'
  unfolding verify_replayed
  verify_replayed-Verified s s' r e =
      let (_, ev, e1) = >>=-eq-ok (relabel recovery_diverged (validate_state s)) _ e in
      let (_, eh, e2) =
        >>=-eq-ok (reject_if (not (state_hash s == r.state_hash)) recovery_diverged) _ e1 in
      subst (Verified r) (ok-injective e2) (record {
        hash_eq = ==-eq (state_hash s) r.state_hash (ground arith);
        valid_eq = relabel-eq-ok recovery_diverged (validate_state s) ev;
      })

  replay_record-Verified :
      (m : MarketConfig) (s s' : State) (r : EventRecord)
      → replay_record state_hash m s r true ≡ ok s'
      → Verified r s'
  unfolding replay_record
  replay_record-Verified m s s' r e =
      let (z, _, e1) = >>=-eq-ok (replay_command state_hash m s r) _ e in
      verify_replayed-Verified z s' r e1

  enter_schema-not_newer :
      (m : MarketConfig) (r : EventRecord) (started : ℕ) (s s' : State)
      → enter_schema state_hash m r started s ≡ ok s'
      → ltb r.schema_version started ≡ false
  unfolding enter_schema
  enter_schema-not_newer m r started s s' e =
      let (_, _, e1) =
        >>=-eq-ok
          (reject_if (not (r.market_id == m.id) || not (supported_schema_version r.schema_version))
            recovery_diverged)
          _ e in
      let (_, late, _) =
        >>=-eq-ok (reject_if (ltb r.schema_version started) recovery_diverged) _ e1 in
      reject_if-eq-ok (ltb r.schema_version started) recovery_diverged late

  last_active :
      (v started : ℕ) → v ≡ 5 → ltb v started ≡ false → (if ltb started v then v else started) ≡ 5
  last_active v started e h = ground arith

  -- The state that a replay ends with is the one that its last record, of the current schema,
  -- was made with.
  pub replay_all-Verified :
      (m : MarketConfig) (rs : List EventRecord) (r : EventRecord) (a a' : ℕ) (s s' : State)
      → r.schema_version ≡ 5
      → replay_all state_hash m (rs ++ r ∷ []) a s ≡ ok (s', a')
      → Verified r s' × (a' ≡ 5)
  unfolding replay_all
  replay_all-Verified m [] r a a' s s' v e =
      let (z, entered, e1) =
        >>=-eq-ok (enter_schema state_hash m r (started_at state_hash a r) s) _ e in
      let (y, er, e2) = >>=-eq-ok (replay_record state_hash m z r (verify_state r [])) _ e1 in
      subst (λ (w : State × ℕ). Verified r w.0 × (w.1 ≡ 5)) (ok-injective e2)
        (
          replay_record-Verified m z y r er,
          last_active r.schema_version _ v (enter_schema-not_newer m r _ s z entered),
        )
  replay_all-Verified m (x ∷ rs) r a a' s s' v e =
      let (z, _, e1) = >>=-eq-ok (enter_schema state_hash m x (started_at state_hash a x) s) _ e in
      let (y, _, e2) =
        >>=-eq-ok (replay_record state_hash m z x (verify_state x (rs ++ r ∷ []))) _ e1 in
      replay_all-Verified m rs r _ a' y s' v e2

  module _ (store : EventStore) (shelf : SnapshotStore) (fingerprint : Payload → Text)
      (marshal : State → Text) (unmarshal : Text → Result State) where
    abbrev X : Type 0
    X = Exchange store state_hash fingerprint

    upgrade-current :
        (s s' : State) (shelved shelved' : shelf.Shelf) (active : ℕ)
        → active ≡ 5
        → upgrade state_hash store shelf fingerprint marshal unmarshal s active shelved
          ≡ ok (s', shelved')
        → s ≡ s'
    unfolding upgrade
    upgrade-current s s' shelved shelved' active v e =
        let kept : ◌≡◌ {A = Result (State × shelf.Shelf)} (ok (s, shelved)) (ok (s', shelved')) =
          rw v at e in
        ap (λ (p : State × shelf.Shelf). p.0) (ok-injective kept)

    -- If Restore succeeds and the last record that it reads behind the snapshot has the current
    -- schema, then the returned state is valid and its hash is the hash in that record.
    pub restore_verifies :
        (m : MarketConfig) (log : store.Log) (rs : List EventRecord) (r : EventRecord)
        (shelved shelved' : shelf.Shelf) (start : State × ℕ) (x : X)
        → starting_state state_hash store shelf fingerprint marshal unmarshal m shelved ≡ ok start
        → store.records_after log start.0.sequence ≡ ok (rs ++ r ∷ [])
        → r.schema_version ≡ 5
        → restore state_hash store shelf fingerprint marshal unmarshal m log shelved
          ≡ ok (x, shelved')
        → (state_hash x.state ≡ r.state_hash) × (validate_state x.state ≡ ok tt)
    unfolding restore
    restore_verifies m log rs r shelved shelved' start x begun read v e =
        let done = rw (restore, begun, read) at e in
        let (replayed, er, e1) =
          >>=-eq-ok (replay_all state_hash m (rs ++ r ∷ []) start.1 start.0) _ done in
        let (upgraded, eu, e2) =
          >>=-eq-ok
            (upgrade state_hash store shelf fingerprint marshal unmarshal replayed.0 replayed.1
              shelved)
            _ e1 in
        let (h, active) = replay_all-Verified m rs r start.1 replayed.1 start.0 replayed.0 v er in
        let same = upgrade-current replayed.0 upgraded.0 shelved upgraded.1 replayed.1 active eu in
        subst
          (λ (w : X × shelf.Shelf).
            (state_hash w.0.state ≡ r.state_hash) × (validate_state w.0.state ≡ ok tt))
          (ok-injective e2)
          (subst (λ (s : State). (state_hash s ≡ r.state_hash) × (validate_state s ≡ ok tt)) same
            (h.hash_eq, h.valid_eq))
