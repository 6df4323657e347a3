-- ===== src/Exchange/Retries.antt =====
-- Retries of a command in runLocked of trading/exchange/exchange.go behind other commands.
use qiu_market.Prelude.{
  true, false, ◌≡◌, refl, arith, ◌∙◌, sym, some, Bool-cases, Option-cases, inl, inr, ◌==◌,
  if◌then◌else◌, ==-eq, subst,
}
use qiu_market.Prelude.Text.{Text, text_eq}
use qiu_market.Prelude.Dict.{lookup}
use qiu_market.Prelude.Result.{ok, err, idempotency_conflict, ok-injective}
use qiu_market.Domain.{Outcome, Command, IdempotencyKey, key_eq}
use qiu_market.Store.{EventStore}
use qiu_market.Exchange.Types.{State, RequestRecord}
use qiu_market.Exchange.Runner.{Exchange, Payload, run_locked, keeps_request}
use qiu_market.Exchange.Commands.{validate_command_identity}
use qiu_market.Exchange.Accounting.{CommandInt64, HeldInt64}
use qiu_market.Exchange.Idempotency.{
  Guarded, run_locked-Guarded, run_locked_past_guards, run_locked-Recorded, run_new-Tried,
}

module _ (store : EventStore) (state_hash : State → Text) (fingerprint : Payload → Text) where
  abbrev X : Type 0
  X = Exchange store state_hash fingerprint

  -- What any commands that succeed make of an exchange, one behind the other.
  pub data Later : X → X → Type 0 where
    no_more : {x : X} → Later x x
    one_more :
        (x : X) {y z : X} (c : Command) (out : Outcome)
        → CommandInt64 c
        → HeldInt64 x.state.orders
        → run_locked store state_hash fingerprint false x c ≡ ok (y, out)
        → Later y z
        → Later x z

  -- The market and a kept request are as they were.
  record Kept (x y : X) (k : IdempotencyKey) (entry : RequestRecord) : Type 0 where
    market_eq : y.state.market ≡ x.state.market
    entry_eq : lookup k y.state.requests ≡ some entry

  run_locked-Kept :
      (x y : X) (c : Command) (out : Outcome) (k : IdempotencyKey) (entry : RequestRecord)
      → CommandInt64 c
      → HeldInt64 x.state.orders
      → keeps_request k ≡ true
      → lookup k x.state.requests ≡ some entry
      → run_locked store state_hash fingerprint false x c ≡ ok (y, out)
      → Kept x y k entry
  unfolding run_locked
  run_locked-Kept x y c out k entry hc hh keep there e =
      let g = run_locked-Guarded store state_hash fingerprint false x c e in
      elim (Option-cases (lookup c.request_key x.state.requests)) [
        | inl fresh ↦
            let t =
              run_new-Tried store state_hash fingerprint x y c out hc hh
                (rw (run_locked, g.identity_eq, g.market_eq, fresh) at e) in
            elim (Bool-cases (c.request_key == k)) [
              | inl same ↦ absurd (
                  let missing = rw (==-eq c.request_key k same) at fresh in
                  let bad = rw there at missing in ground arith)
              | inr other ↦ record { market_eq = t.0; entry_eq = t.3 k keep other ∙ there }
            ]
        | inr (previous, found) ↦
            let replay : (if previous.fingerprint == c.fingerprint
                  then ok (x, previous.result)
                  else err idempotency_conflict)
                ≡ ok (y, out) =
              sym (run_locked_past_guards store state_hash fingerprint x c previous g found) ∙ e in
            elim (Bool-cases (previous.fingerprint == c.fingerprint)) [
              | inl same ↦
                  let w = ok-injective (rw same at replay) in
                  subst (λ (q : X × Outcome). Kept x q.0 k entry) w
                    (record { market_eq = refl; entry_eq = there })
              | inr other ↦ absurd (let w = rw other at replay in ground arith)
            ]
      ]

  Later-Kept :
      (x y : X) (k : IdempotencyKey) (entry : RequestRecord)
      → keeps_request k ≡ true
      → lookup k x.state.requests ≡ some entry
      → Later x y
      → Kept x y k entry
  Later-Kept x _ k entry keep there no_more = record { market_eq = refl; entry_eq = there }
  Later-Kept _ z k entry keep there (one_more x {y} c out hc hh e more) =
      let first = run_locked-Kept x y c out k entry hc hh keep there e in
      let rest = Later-Kept y z k entry keep first.entry_eq more in
      record { market_eq = rest.market_eq ∙ first.market_eq; entry_eq = rest.entry_eq }

  -- However late a retry comes, it is answered from the first run: when a command has succeeded, and
  -- any further commands have succeeded behind it, a command with the same key and a valid identity
  -- gets the first result and leaves the exchange as it is if it has the same fingerprint, and is
  -- refused with an idempotency conflict if not. The requests of the key's account and operation have
  -- to be kept, as all are but those of submit and cancel commands of system:demo-maker, and amounts
  -- are int64 values.
  pub run_locked_retried :
      (x x' y : X) (c c' : Command) (out : Outcome)
      → CommandInt64 c
      → HeldInt64 x.state.orders
      → keeps_request c.request_key ≡ true
      → run_locked store state_hash fingerprint false x c ≡ ok (x', out)
      → Later x' y
      → c'.request_key ≡ c.request_key
      → validate_command_identity c' ≡ ok tt
      → run_locked store state_hash fingerprint false y c'
        ≡ (if c.fingerprint == c'.fingerprint then ok (y, out) else err idempotency_conflict)
  run_locked_retried x x' y c c' out hc hh keep e more same valid =
      let k = run_locked-Recorded store state_hash fingerprint x x' c out hc hh keep e in
      let g = run_locked-Guarded store state_hash fingerprint false x c e in
      let late = Later-Kept x' y c.request_key k.entry keep k.entry_eq more in
      let g' : Guarded store state_hash fingerprint y c' = record {
        identity_eq = valid;
        market_eq = rw (same, late.market_eq, k.market_eq) g.market_eq;
      } in
      run_locked_past_guards store state_hash fingerprint y c' k.entry g' (rw same late.entry_eq)
      ∙ rw (k.fingerprint_eq, k.result_eq) refl
