-- ===== src/Exchange/Trials.antt =====
-- What the trial of a command in runLocked of trading/exchange/exchange.go keeps and records.
use qiu_market.Exchange.Views.{build_projection}
use qiu_market.Exchange.Commands.{apply}
use qiu_market.OrderBook.{from_snapshot, snapshot}
use qiu_market.Prelude.{
  [], ◌∷◌, true, ◌≡◌, refl, arith, ◌∙◌, some, Bool-cases, inl, inr, ◌==◌, not, ◌&&◌, ==-refl, ==-eq,
  subst, false, ap,
}
use qiu_market.Prelude.Int.{int_eq}
use qiu_market.Prelude.Text.{text_eq}
use qiu_market.Prelude.Dict.{Dict, lookup, lookup-insert}
use qiu_market.Prelude.Result.{ok, >>=-eq-ok, ok-injective}
use qiu_market.Domain.{Outcome, Command, IdempotencyKey, key_eq, fund, kind_eq}
use qiu_market.Ledger.{compact, journal_from}
use qiu_market.Exchange.Types.{State, RequestRecord}
use qiu_market.Exchange.Validate.{
  ephemeral_demo_maker_account, drop_demo_requests, compact_for_schema, clone_state,
  compact_ephemeral_system_history, validate_state,
}
use qiu_market.Exchange.Runner.{Trial, run_trial, keeps_request, remember}
use qiu_market.Exchange.Accounting.{CommandInt64, HeldInt64, apply-Step}

lookup-drop_demo :
    (k : IdempotencyKey) (d : Dict IdempotencyKey RequestRecord)
    → keeps_request k ≡ true
    → lookup k (drop_demo_requests d) ≡ lookup k d
unfolding lookup drop_demo_requests
lookup-drop_demo k [] h = refl
lookup-drop_demo k ((j, r) ∷ d) h =
    elim (Bool-cases (j.account_id == ephemeral_demo_maker_account && not (j.operation == fund))) [
      | inl gone ↦ elim (Bool-cases (j == k)) [
        | inl same ↦ absurd (let kept = rw (← ==-eq j k same) at h in ground arith)
        | inr other ↦ rw (gone, other) (lookup-drop_demo k d h)
      ]
      | inr kept ↦ elim (Bool-cases (j == k)) [
        | inl same ↦ rw (kept, lookup, same) refl
        | inr other ↦ rw (kept, lookup, other) (lookup-drop_demo k d h)
      ]
    ]

-- What a trial comes to.
pub record Tried (s : State) (c : Command) (t : Trial) : Type 0 where
  pub market_eq : t.state.market ≡ s.market
  pub sequence_eq : t.state.sequence ≡ c.sequence
  pub remembered :
      keeps_request c.request_key ≡ true
      → lookup c.request_key t.state.requests
        ≡ some (record { fingerprint = c.fingerprint; result = t.result })
  pub kept :
      (k : IdempotencyKey)
      → keeps_request k ≡ true
      → (c.request_key == k) ≡ false
      → lookup k t.state.requests ≡ lookup k s.requests

compact-requests :
    (s s' : State)
    → compact_for_schema s 5 ≡ ok s'
    → (s'.market ≡ s.market)
      × (s'.sequence ≡ s.sequence)
      × (s'.requests ≡ drop_demo_requests s.requests)
unfolding compact_for_schema compact_ephemeral_system_history
compact-requests s s' e =
    let (l, _, e1) = >>=-eq-ok (compact s.ledger) _ e in
    subst
      (λ (w : State).
        (w.market ≡ s.market)
        × (w.sequence ≡ s.sequence)
        × (w.requests ≡ drop_demo_requests s.requests))
      (ok-injective e1) (refl, refl, refl)

remember-lookup :
    (s : State) (c : Command) (out : Outcome)
    → (((remember s c out).market ≡ s.market) × ((remember s c out).sequence ≡ s.sequence))
      × (keeps_request c.request_key ≡ true
          → lookup c.request_key (remember s c out).requests
            ≡ some (record { fingerprint = c.fingerprint; result = out }))
unfolding remember
remember-lookup s c out = elim (Bool-cases (keeps_request c.request_key)) [
  | inl keep ↦ rw keep (
    (refl, refl),
    λ k. rw (lookup-insert c.request_key c.request_key _ s.requests, ==-refl c.request_key) refl,
  )
  | inr skip ↦ rw skip ((refl, refl), λ k. absurd (ground arith))
]

remember-others :
    (s : State) (c : Command) (out : Outcome) (k : IdempotencyKey)
    → (c.request_key == k) ≡ false
    → lookup k (remember s c out).requests ≡ lookup k s.requests
unfolding remember
remember-others s c out k other = elim (Bool-cases (keeps_request c.request_key)) [
  | inl keep ↦
      let entry : RequestRecord = record { fingerprint = c.fingerprint; result = out } in
      rw (keep, lookup-insert c.request_key k entry s.requests, other) refl
  | inr skip ↦ rw skip refl
]

clone_state-keeps :
    (s s' : State)
    → clone_state s ≡ ok s'
    → (s'.market ≡ s.market)
      × (s'.orders ≡ s.orders)
      × (s'.ledger ≡ s.ledger)
      × (s'.requests ≡ s.requests)
unfolding clone_state
clone_state-keeps s s' e =
    let (b, _, e1) = >>=-eq-ok (from_snapshot s.market (snapshot s.book)) _ e in
    subst
      (λ (w : State).
        (w.market ≡ s.market)
        × (w.orders ≡ s.orders)
        × (w.ledger ≡ s.ledger)
        × (w.requests ≡ s.requests))
      (ok-injective e1) (refl, refl, refl, refl)

pub run_trial-Tried :
    (s : State) (c : Command) (t : Trial)
    → CommandInt64 c
    → HeldInt64 s.orders
    → run_trial s c ≡ ok t
    → Tried s c t
unfolding run_trial
run_trial-Tried s c t hc hh e =
    let (copy, ec, e1) = >>=-eq-ok (clone_state s) _ e in
    let (a, ea, e2) = >>=-eq-ok (apply (record copy { sequence = c.sequence }) c) _ e1 in
    let (_, _, e3) = >>=-eq-ok (journal_from a.0.ledger _) _ e2 in
    let (_, _, e4) = >>=-eq-ok (build_projection a.0 c a.1) _ e3 in
    let (z, ez, e5) = >>=-eq-ok (compact_for_schema (remember a.0 c a.1) 5) _ e4 in
    let (_, _, e6) = >>=-eq-ok (validate_state z) _ e5 in
    let (mk, ok_, _, rk) = clone_state-keeps s copy ec in
    let held : HeldInt64 copy.orders = rw ok_ hh in
    let step = apply-Step (record copy { sequence = c.sequence }) c hc held ea in
    let (mz, sz, rz) = compact-requests (remember a.0 c a.1) z ez in
    let (same, found) = remember-lookup a.0 c a.1 in
    subst (Tried s c) (ok-injective e6) (record {
      market_eq = mz ∙ same.0 ∙ step.market_eq ∙ mk;
      sequence_eq = sz ∙ same.1 ∙ step.sequence_eq;
      remembered = λ keep.
          rw (rz, lookup-drop_demo c.request_key (remember a.0 c a.1).requests keep) (found keep);
      kept = λ k keep other.
          ap (lookup k) rz
          ∙ lookup-drop_demo k (remember a.0 c a.1).requests keep
          ∙ remember-others a.0 c a.1 k other
          ∙ ap (lookup k) (step.requests_eq ∙ rk);
    })
