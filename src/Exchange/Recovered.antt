-- ===== src/Exchange/Recovered.antt =====
-- Restore of trading/exchange/exchange.go on the log that runLocked wrote.
use qiu_market.Exchange.Commands.{validate_command_identity, payload_account}
use qiu_market.OrderBook.{new_book}
use qiu_market.Exchange.Trials.{run_trial-Tried}
use qiu_market.Prelude.Int.{word_mod}
use qiu_market.Prelude.Dict.{lookup}
use qiu_market.Exchange.Accounting.{CommandInt64, HeldInt64}
use qiu_market.Exchange.Runner.{Payload, Exchange, run_new, run_locked, run_trial, record_of}
use qiu_market.Prelude.Result.{
  ok, ◌>>=◌, ok-injective, >>=-eq-ok, relabel, persistence, relabel-eq-ok, reject_if, Result,
  canceled_context, err, reject_if-eq-ok, idempotency_conflict,
}
use qiu_market.Exchange.Restore.{
  replay_all, verify_state, replay_record, restore, starting_state, upgrade, enter_schema,
}
use qiu_market.Prelude.Text.{Text, is_empty}
use qiu_market.Exchange.Types.{State, new_state, RequestRecord}
use qiu_market.Store.{EventRecord, EventStore, EventStoreLaws, SnapshotStore}
use qiu_market.Domain.{MarketConfig, Command, Outcome, key_eq, validate_market}
use qiu_market.Exchange.Replay.{replay-trial, bind_ok, same_value}
use qiu_market.Exchange.Idempotency.{Guarded, run_locked-Guarded}
use qiu_market.Prelude.{
  [], ◌∷◌, true, false, inl, inr, List, ◌≡◌, refl, ℕ, All, ◌⊎◌, ◌++◌, ap, sym, ◌∙◌, Bool, none, ◌+◌,
  ◌%◌, subst, All-append, if◌then◌else◌, Option-cases,
}

abbrev pub IsCurrent : MarketConfig → EventRecord → Type 0
IsCurrent m r = (r.schema_version ≡ 5) × (r.market_id ≡ m.id)

verify_state-current :
    (r : EventRecord) (rs : List EventRecord) → r.schema_version ≡ 5 → verify_state r rs ≡ true
verify_state-current r [] e = refl
verify_state-current r (next ∷ rs) e = rw e refl

module _ (state_hash : State → Text) (m : MarketConfig) where
  replay_all-current :
      (r : EventRecord) (rs : List EventRecord) (a : ℕ) (s : State)
      → IsCurrent m r
      → (a ≡ 0) ⊎ (a ≡ 5)
      → replay_all state_hash m (r ∷ rs) a s
        ≡ (replay_record state_hash m s r true >>= λ s'. replay_all state_hash m rs 5 s')
  unfolding replay_all enter_schema
  replay_all-current r rs a s (v, i) (inl e) =
      rw (e, verify_state-current r rs v, v, same_value r.market_id m.id i) refl
  replay_all-current r rs a s (v, i) (inr e) =
      rw (e, verify_state-current r rs v, v, same_value r.market_id m.id i) refl

  -- A replay of records under the current schema goes on with one more.
  replay_all-snoc :
      (rs : List EventRecord) (r : EventRecord) (a a1 : ℕ) (s s1 s2 : State)
      → All (IsCurrent m) rs
      → IsCurrent m r
      → (a ≡ 0) ⊎ (a ≡ 5)
      → replay_all state_hash m rs a s ≡ ok (s1, a1)
      → replay_record state_hash m s1 r true ≡ ok s2
      → replay_all state_hash m (rs ++ r ∷ []) a s ≡ ok (s2, 5)
  unfolding replay_all
  replay_all-snoc [] r a a1 s s1 s2 all now start e h =
      let same : s ≡ s1 = ap (λ (p : State × ℕ). p.0) (ok-injective e) in
      rw (replay_all-current r [] a s now start, same, h) refl
  replay_all-snoc (x ∷ rs) r a a1 s s1 s2 (nx, all) now start e h =
      let (s', e', rest) =
        >>=-eq-ok (replay_record state_hash m s x true) (λ z. replay_all state_hash m rs 5 z)
          (sym (replay_all-current x rs a s nx start) ∙ e) in
      replay_all-current x (rs ++ r ∷ []) a s nx start
      ∙ bind_ok _ _ e' (replay_all-snoc rs r 5 a1 s' s1 s2 all now (inr refl) rest h)

module _ (store : EventStore) (state_hash : State → Text) (fingerprint : Payload → Text)
    (laws : EventStoreLaws store) (m : MarketConfig) where
  abbrev X : Type 0
  X = Exchange store state_hash fingerprint

  -- The exchanges that runs of runLocked make from a new one with an empty log.
  pub data Runs : X → Type 0 where
    begins :
        {log : store.Log} {s : State}
        → new_state m ≡ ok s
        → laws.contents log ≡ []
        → Runs (record { log = log; state = s })
    goes_on :
        (x : X) {x' : X} (c : Command) (out : Outcome) (canceled : Bool)
        → Runs x
        → CommandInt64 c
        → HeldInt64 x.state.orders
        → is_empty c.fingerprint ≡ false
        → run_locked store state_hash fingerprint canceled x c ≡ ok (x', out)
        → Runs x'

  -- The log is of the market and the current schema, and its replay makes the state.
  record Logged (x : X) : Type 0 where
    market_eq : x.state.market ≡ m
    start : State
    start_eq : new_state m ≡ ok start
    current : All (IsCurrent m) (laws.contents x.log)
    active : ℕ
    active_cases : (active ≡ 0) ⊎ (active ≡ 5)
    replay_eq : replay_all state_hash m (laws.contents x.log) 0 start ≡ ok (x.state, active)

  new_state-market : (s : State) → new_state m ≡ ok s → (s.market ≡ m) × (s.sequence ≡ 0)
  unfolding new_state
  new_state-market s e =
      let (_, _, e1) = >>=-eq-ok (validate_market m) _ e in
      let (_, _, e2) = >>=-eq-ok (new_book m) _ e1 in
      subst (λ (w : State). (w.market ≡ m) × (w.sequence ≡ 0)) (ok-injective e2) (refl, refl)

  run_new-Logged :
      (x x' : X) (c : Command) (out : Outcome)
      → Logged x
      → CommandInt64 c
      → HeldInt64 x.state.orders
      → is_empty c.fingerprint ≡ false
      → Guarded store state_hash fingerprint x c
      → lookup c.request_key x.state.requests ≡ none
      → run_new store state_hash fingerprint x c ≡ ok (x', out)
      → Logged x'
  unfolding run_new validate_command_identity payload_account
  run_new-Logged x x' c out lg hc hh hf g fresh e =
      let n : Command = record c { sequence = (x.state.sequence + 1) % word_mod } in
      let (t, et, e1) = >>=-eq-ok (run_trial x.state n) _ e in
      let (log, el, e2) =
        >>=-eq-ok (relabel persistence (store.append x.log x.state.sequence _)) _ e1 in
      let r : EventRecord = record_of store state_hash fingerprint n t x.state in
      let grown = laws.append_lem x.log log x.state.sequence r (relabel-eq-ok persistence _ el) in
      let k = run_trial-Tried x.state n t hc hh et in
      let now : IsCurrent m r = (refl, ap (λ (w : MarketConfig). w.id) lg.market_eq) in
      let one =
        replay-trial state_hash m x.state r t refl refl hf (rw (← lg.market_eq) g.market_eq)
          g.identity_eq fresh et refl refl refl refl in
      subst (λ (w : X × Outcome). Logged w.0) (ok-injective e2)
        (record {
          market_eq = k.market_eq ∙ lg.market_eq;
          start = lg.start;
          start_eq = lg.start_eq;
          current =
              rw grown
                (All-append (IsCurrent m) (laws.contents x.log) (r ∷ []) lg.current (now, tt));
          active = 5;
          active_cases = inr refl;
          replay_eq = rw grown (
              replay_all-snoc state_hash m (laws.contents x.log) r 0 lg.active lg.start x.state
                t.state lg.current now (inl refl) lg.replay_eq one);
        })

  kept :
      (x x' : X) (out : Outcome) (k : RequestRecord) (b : Bool)
      → (if◌then◌else◌ {A = Result (X × Outcome)} b (ok (x, k.result)) (err idempotency_conflict))
        ≡ ok (x', out)
      → x ≡ x'
  kept x x' out k true e = ap (λ (p : X × Outcome). p.0) (ok-injective e)
  kept x x' out k false e = cc

  run_locked-Logged :
      (x x' : X) (c : Command) (out : Outcome) (canceled : Bool)
      → Logged x
      → CommandInt64 c
      → HeldInt64 x.state.orders
      → is_empty c.fingerprint ≡ false
      → run_locked store state_hash fingerprint canceled x c ≡ ok (x', out)
      → Logged x'
  unfolding run_locked
  run_locked-Logged x x' c out canceled lg hc hh hf e =
      let g = run_locked-Guarded store state_hash fingerprint canceled x c e in
      let (_, stop, _) = >>=-eq-ok (reject_if canceled canceled_context) _ e in
      let live = reject_if-eq-ok canceled canceled_context stop in
      elim (Option-cases (lookup c.request_key x.state.requests)) [
        | inl fresh ↦
            run_new-Logged x x' c out lg hc hh hf g fresh
              (rw (run_locked, live, g.identity_eq, g.market_eq, fresh) at e)
        | inr (known, there) ↦
            let same = rw (run_locked, live, g.identity_eq, g.market_eq, there) at e in
            subst Logged (kept x x' out known _ same) lg
      ]

  Runs-Logged : (x : X) → Runs x → Logged x
  unfolding replay_all
  Runs-Logged _ (begins {log} {s} e empty) = record {
    market_eq = (new_state-market s e).0;
    start = s;
    start_eq = e;
    current = rw empty tt;
    active = 0;
    active_cases = inl refl;
    replay_eq = rw empty refl;
  }
  Runs-Logged _ (goes_on x {x'} c out canceled before hc hh hf e) =
      run_locked-Logged x x' c out canceled (Runs-Logged x before) hc hh hf e

  module _ (shelf : SnapshotStore) (marshal : State → Text) (unmarshal : Text → Result State) where
    -- After any run of commands from a new exchange with an empty log, Restore on the log of that
    -- exchange, with no snapshot saved, succeeds and returns exactly the state that the exchange
    -- is in. Commands have nonempty fingerprints and amounts in int64, and so have the open orders.
    pub restore_replays :
        (x : X) (shelved : shelf.Shelf)
        → Runs x
        → shelf.load shelved ≡ ok none
        → restore state_hash store shelf fingerprint marshal unmarshal m x.log shelved
          ≡ ok (x, shelved)
    unfolding restore starting_state upgrade replay_all
    restore_replays x shelved runs none_saved =
        let lg = Runs-Logged x runs in
        let zero_first = (new_state-market lg.start lg.start_eq).1 in
        let begun : starting_state state_hash store shelf fingerprint marshal unmarshal m shelved
            ≡ ok (lg.start, 0) =
          bind_ok _ _ lg.start_eq (bind_ok _ _ none_saved refl) in
        let read : store.records_after x.log lg.start.sequence ≡ ok (laws.contents x.log) =
          rw zero_first (laws.records_lem x.log) in
        let ended : upgrade state_hash store shelf fingerprint marshal unmarshal x.state lg.active
              shelved
            ≡ ok (x.state, shelved) =
          elim lg.active_cases [ inl e ↦ rw e refl | inr e ↦ rw e refl ] in
        bind_ok _ _ begun (bind_ok _ _ read (bind_ok _ _ lg.replay_eq (bind_ok _ _ ended refl)))
