-- ===== src/Exchange/Idempotency.antt =====
-- Retries of a command in runLocked of trading/exchange/exchange.go.
use qiu_market.Exchange.Commands.{validate_command_identity}
use qiu_market.Prelude.{
  true, false, Bool, ◌≡◌, refl, arith, ◌∙◌, sym, ◌+◌, ◌%◌, none, some, Bool-cases, Option-cases,
  inl, inr, ◌==◌, not, if◌then◌else◌, ==-eq, subst,
}
use qiu_market.Prelude.Int.{int_eq, word_mod}
use qiu_market.Prelude.Text.{Text, text_eq}
use qiu_market.Prelude.Dict.{lookup}
use qiu_market.Prelude.Result.{
  ok, err, >>=-eq-ok, ok-injective, reject_if, relabel, invalid_request, persistence,
  idempotency_conflict, canceled_context, relabel-eq-ok,
}
use qiu_market.Domain.{Outcome, Command, IdempotencyKey, key_eq, kind_eq}
use qiu_market.Store.{EventStore}
use qiu_market.Exchange.Types.{State, RequestRecord}
use qiu_market.Exchange.Runner.{Exchange, Payload, run_trial, run_new, run_locked, keeps_request}
use qiu_market.Exchange.Accounting.{CommandInt64, HeldInt64}
use qiu_market.Exchange.Trials.{run_trial-Tried}

module _ (store : EventStore) (state_hash : State → Text) (fingerprint : Payload → Text) where
  abbrev X : Type 0
  X = Exchange store state_hash fingerprint

  -- A new command that succeeds takes the next sequence number.
  pub run_new-Tried :
      (x x' : X) (c : Command) (out : Outcome)
      → CommandInt64 c
      → HeldInt64 x.state.orders
      → run_new store state_hash fingerprint x c ≡ ok (x', out)
      → (x'.state.market ≡ x.state.market)
        × (x'.state.sequence ≡ (x.state.sequence + 1) % word_mod)
        × (keeps_request c.request_key ≡ true
            → lookup c.request_key x'.state.requests
              ≡ some (record { fingerprint = c.fingerprint; result = out }))
        × ((k : IdempotencyKey)
            → keeps_request k ≡ true
            → (c.request_key == k) ≡ false
            → lookup k x'.state.requests ≡ lookup k x.state.requests)
  unfolding run_new
  run_new-Tried x x' c out hc hh e =
      let n : Command = record c { sequence = (x.state.sequence + 1) % word_mod } in
      let (t, et, e1) = >>=-eq-ok (run_trial x.state n) _ e in
      let (log, _, e2) =
        >>=-eq-ok (relabel persistence (store.append x.log x.state.sequence _)) _ e1 in
      let k = run_trial-Tried x.state n t hc hh et in
      subst
        (λ (w : X × Outcome).
          (w.0.state.market ≡ x.state.market)
          × (w.0.state.sequence ≡ (x.state.sequence + 1) % word_mod)
          × (keeps_request c.request_key ≡ true
              → lookup c.request_key w.0.state.requests
                ≡ some (record { fingerprint = c.fingerprint; result = w.1 }))
          × ((j : IdempotencyKey)
              → keeps_request j ≡ true
              → (c.request_key == j) ≡ false
              → lookup j w.0.state.requests ≡ lookup j x.state.requests))
        (ok-injective e2) (k.market_eq, k.sequence_eq, k.remembered, k.kept)

  -- The guards of runLocked that a command has passed.
  pub record Guarded (x : X) (c : Command) : Type 0 where
    pub identity_eq : validate_command_identity c ≡ ok tt
    pub market_eq : (c.request_key.market_id == x.state.market.id) ≡ true

  pub run_locked-Guarded :
      (canceled : Bool) (x : X) (c : Command) {r : X × Outcome}
      → run_locked store state_hash fingerprint canceled x c ≡ ok r
      → Guarded x c
  unfolding run_locked
  run_locked-Guarded canceled x c {r} e =
      let (_, _, e1) = >>=-eq-ok (reject_if canceled canceled_context) _ e in
      let (_, ei, e2) = >>=-eq-ok (relabel invalid_request (validate_command_identity c)) _ e1 in
      let (_, em, _) =
        >>=-eq-ok (reject_if (not (c.request_key.market_id == x.state.market.id)) invalid_request) _
          e2 in
      record {
        identity_eq = relabel-eq-ok invalid_request (validate_command_identity c) ei;
        market_eq = ground arith;
      }

  pub run_locked_past_guards :
      (x : X) (c : Command) (k : RequestRecord)
      → Guarded x c
      → lookup c.request_key x.state.requests ≡ some k
      → run_locked store state_hash fingerprint false x c
        ≡ (if k.fingerprint == c.fingerprint then ok (x, k.result) else err idempotency_conflict)
  unfolding run_locked
  run_locked_past_guards x c k g e = rw (g.identity_eq, g.market_eq, e) refl

  -- Behind a call that succeeds, the state has its request under the key, if requests of that kind
  -- are kept.
  pub record Recorded (x x' : X) (c : Command) (out : Outcome) : Type 0 where
    pub market_eq : x'.state.market ≡ x.state.market
    pub entry : RequestRecord
    pub entry_eq : lookup c.request_key x'.state.requests ≡ some entry
    pub fingerprint_eq : entry.fingerprint ≡ c.fingerprint
    pub result_eq : entry.result ≡ out

  pub run_locked-Recorded :
      (x x' : X) (c : Command) (out : Outcome)
      → CommandInt64 c
      → HeldInt64 x.state.orders
      → keeps_request c.request_key ≡ true
      → run_locked store state_hash fingerprint false x c ≡ ok (x', out)
      → Recorded x x' c out
  unfolding run_locked
  run_locked-Recorded x x' c out hc hh keep e =
      let g = run_locked-Guarded false x c e in
      elim (Option-cases (lookup c.request_key x.state.requests)) [
        | inl fresh ↦
            let k =
              run_new-Tried x x' c out hc hh
                (rw (run_locked, g.identity_eq, g.market_eq, fresh) at e) in
            record {
              market_eq = k.0;
              entry = record { fingerprint = c.fingerprint; result = out };
              entry_eq = k.2 keep;
              fingerprint_eq = refl;
              result_eq = refl;
            }
        | inr (previous, found) ↦
            let replay : (if previous.fingerprint == c.fingerprint
                  then ok (x, previous.result)
                  else err idempotency_conflict)
                ≡ ok (x', out) =
              sym (run_locked_past_guards x c previous g found) ∙ e in
            elim (Bool-cases (previous.fingerprint == c.fingerprint)) [
              | inl same ↦
                  let w = ok-injective (rw same at replay) in
                  subst (λ (q : X × Outcome). Recorded x q.0 c q.1) w
                    (record {
                      market_eq = refl;
                      entry = previous;
                      entry_eq = found;
                      fingerprint_eq = ==-eq previous.fingerprint c.fingerprint same;
                      result_eq = refl;
                    })
              | inr other ↦ absurd (let w = rw other at replay in ground arith)
            ]
      ]

  -- A command whose key is new, and that succeeds, takes the sequence number behind the state's, mod
  -- 2^64, and leaves the market as it was; amounts are int64 values.
  pub run_locked_advances :
      (canceled : Bool) (x x' : X) (c : Command) (out : Outcome)
      → CommandInt64 c
      → HeldInt64 x.state.orders
      → lookup c.request_key x.state.requests ≡ none
      → run_locked store state_hash fingerprint canceled x c ≡ ok (x', out)
      → (x'.state.sequence ≡ (x.state.sequence + 1) % word_mod)
        × (x'.state.market ≡ x.state.market)
        × (canceled ≡ false)
  unfolding run_locked
  run_locked_advances true x x' c out hc hh fresh e = absurd (ground arith)
  run_locked_advances false x x' c out hc hh fresh e =
      let g = run_locked-Guarded false x c e in
      let k =
        run_new-Tried x x' c out hc hh (rw (run_locked, g.identity_eq, g.market_eq, fresh) at e) in
      (k.1, k.0, refl)
