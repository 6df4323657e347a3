-- ===== src/Exchange/Accounting.antt =====
-- apply of trading/exchange/exchange.go, for every kind of command, and the ledger.
use qiu_market.Exchange.Settle.{reserve_for}
use qiu_market.OrderBook.{cancel}
use qiu_market.Exchange.Commands.{apply, apply_cancel, apply_fund, cancel_open_order}
use qiu_market.Exchange.Submit.{
  apply_submit, place_order, entry_gate, is_insufficient, order_of_request,
}
use qiu_market.Prelude.{
  ℕ, [], ◌∷◌, ◌++◌, ◌≡◌, refl, arith, some, Bool-cases, Option-cases, inl, inr, ◌==◌, not, ◌||◌,
  if◌then◌else◌, subst, All,
}
use qiu_market.Prelude.Int.{pos, int_eq, IsInt64, leb_ℤ}
use qiu_market.Prelude.Text.{Text, text_eq, bytes}
use qiu_market.Prelude.Dict.{Dict, lookup}
use qiu_market.Prelude.Result.{ok, >>=-eq-ok, ok-injective, Result-cases, reject_if}
use qiu_market.Domain.{
  Order, Outcome, Command, NewOrder, FundRequest, fund, submit_order, cancel_order, unknown_kind,
  CommandKind, buy, validate_cancel, validate_fund, validate_order, is_open, side_eq,
}
use qiu_market.Ledger.{fund_virtual, hold, release}
use qiu_market.Ledger.Drafts.{AllInt64}
use qiu_market.Ledger.Moves.{Solvent}
use qiu_market.Ledger.Conservation.{asset_total}
use qiu_market.Exchange.Types.{State, reject_order, sequence_id}
use qiu_market.Exchange.Posting.{
  done, Posts-trans, release-Posts, hold-Posts, fund-Posts, Posts-Kept,
}
use qiu_market.Exchange.Conservation.{Step, still, execute_order-Step, reserve-IsInt64}

-- The amounts of a command are int64 values, as Go's types have it; so are the amounts on hold.
abbrev pub CommandInt64 : Command → Type 0
CommandInt64 c =
    ((r : FundRequest) → c.fund_request ≡ some r → IsInt64 r.amount)
    × ((r : NewOrder) → c.submit_request ≡ some r → IsInt64 r.quantity × IsInt64 r.quote_budget)

abbrev pub HeldInt64 : Dict Text Order → Type 0
HeldInt64 orders = (id : Text) (o : Order) → lookup id orders ≡ some o → IsInt64 o.held_amount

rejected-Step :
    (s : State) (sequence : ℕ) (o : Order) (reason : Text)
    → Step s (reject_order s sequence o reason).0
unfolding reject_order
rejected-Step s sequence o reason = record {
  market_eq = refl;
  sequence_eq = refl;
  requests_eq = refl;
  posts = done s.ledger;
}

place_order-Step :
    (s : State) (sequence : ℕ) (n : NewOrder) (o : Order) {r : State × Outcome}
    → IsInt64 o.remaining_quantity
    → IsInt64 o.remaining_quote_budget
    → place_order s sequence n o ≡ ok r
    → Step s r.0
unfolding place_order
place_order-Step s sequence n o {r} hq hb e =
    let (v, ev, e1) = >>=-eq-ok (reserve_for s.market o) _ e in
    elim (Result-cases (
      hold s.ledger (sequence_id (bytes "hold:") sequence) (bytes "order-hold:" ++ o.id)
        o.account_id v.0 v.1)) [
          | inl (l, el) ↦
              let first =
                hold-Posts s.ledger l _ _ o.account_id v.0 v.1 (reserve-IsInt64 s.market o hq hb ev)
                  el in
              let rest =
                execute_order-Step (record s { ledger = l }) sequence n v.0 _ (rw el at e1) in
              record {
                market_eq = rest.market_eq;
                sequence_eq = rest.sequence_eq;
                requests_eq = rest.requests_eq;
                posts = Posts-trans s.ledger l r.0.ledger first rest.posts;
              }
          | inr (x, el) ↦ elim (Bool-cases (is_insufficient x)) [
            | inl poor ↦
                subst (λ (w : State × Outcome). Step s w.0) (ok-injective (rw (el, poor) at e1))
                  (rejected-Step s sequence o (bytes "insufficient_balance"))
            | inr other ↦ absurd (ground arith)
          ]
        ]

apply_submit-Step :
    (s : State) (c : Command) {r : State × Outcome}
    → CommandInt64 c
    → apply_submit s c ≡ ok r
    → Step s r.0
unfolding apply_submit order_of_request
apply_submit-Step s c {r} h e = elim (Option-cases c.submit_request) [
  | inl gone ↦ absurd (ground arith)
  | inr (n, there) ↦
      let (_, _, e1) = >>=-eq-ok (validate_order n s.market) _ (rw (apply_submit, there) at e) in
      let (g, _, e2) = >>=-eq-ok (entry_gate s.book n) _ e1 in
      elim (Option-cases g) [
        | inl clear ↦
            let o = order_of_request s.market c.sequence n in
            place_order-Step s c.sequence n o (h.1 n there).0 (h.1 n there).1 (rw clear at e2)
        | inr (reason, stop) ↦
            subst (λ (w : State × Outcome). Step s w.0) (ok-injective (rw stop at e2))
              (rejected-Step s c.sequence (order_of_request s.market c.sequence n) reason)
      ]
]

apply_fund-Step :
    (s : State) (c : Command) {r : State × Outcome}
    → CommandInt64 c
    → apply_fund s c ≡ ok r
    → Step s r.0
unfolding apply_fund
apply_fund-Step s c h e = elim (Option-cases c.fund_request) [
  | inl gone ↦ absurd (ground arith)
  | inr (n, there) ↦
      let (_, _, e1) = >>=-eq-ok (validate_fund n s.market) _ (rw (apply_fund, there) at e) in
      let (l, el, e2) = >>=-eq-ok (fund_virtual s.ledger _ _ n.account_id n.asset n.amount) _ e1 in
      subst (λ (w : State × Outcome). Step s w.0) (ok-injective e2)
        (record {
          market_eq = refl;
          sequence_eq = refl;
          requests_eq = refl;
          posts = fund-Posts s.ledger l _ _ n.account_id n.asset n.amount (h.0 n there) el;
        })
]

cancel_open-Step :
    (s : State) (sequence : ℕ) (o : Order) {r : State × Outcome}
    → IsInt64 o.held_amount
    → cancel_open_order s sequence o ≡ ok r
    → Step s r.0
unfolding cancel_open_order
cancel_open-Step s sequence o h e =
    let asset = if o.side == buy then s.market.quote_asset else s.market.base_asset in
    let (b, _, e1) = >>=-eq-ok (cancel s.book o.id) _ e in
    let (_, _, e2) =
      >>=-eq-ok (reject_if (leb_ℤ o.held_amount (pos 0) || not (o.held_asset == asset)) _) _ e1 in
    let (l, el, e3) = >>=-eq-ok (release s.ledger _ _ o.account_id asset o.held_amount) _ e2 in
    subst (λ (w : State × Outcome). Step s w.0) (ok-injective e3)
      (record {
        market_eq = refl;
        sequence_eq = refl;
        requests_eq = refl;
        posts = release-Posts s.ledger l _ _ o.account_id asset o.held_amount h el;
      })

apply_cancel-Step :
    (s : State) (c : Command) {r : State × Outcome}
    → HeldInt64 s.orders
    → apply_cancel s c ≡ ok r
    → Step s r.0
unfolding apply_cancel
apply_cancel-Step s c {r} h e = elim (Option-cases c.cancel_request) [
  | inl gone ↦ absurd (ground arith)
  | inr (n, there) ↦
      let (_, _, e1) = >>=-eq-ok (validate_cancel n) _ (rw (apply_cancel, there) at e) in
      elim (Option-cases (lookup n.order_id s.orders)) [
        | inl missing ↦
            subst (λ (w : State × Outcome). Step s w.0) (ok-injective (rw missing at e1)) (still s)
        | inr (o, found) ↦
            let e2 = rw found at e1 in
            elim (Bool-cases (o.account_id == n.account_id)) [
              | inr foreign ↦
                  subst (λ (w : State × Outcome). Step s w.0) (ok-injective (rw foreign at e2))
                    (still s)
              | inl own ↦ elim (Bool-cases (is_open o)) [
                | inr closed ↦
                    subst (λ (w : State × Outcome). Step s w.0)
                      (ok-injective (rw (own, closed) at e2)) (still s)
                | inl open_one ↦
                    cancel_open-Step s c.sequence o (h n.order_id o found)
                      (rw (own, open_one) at e2)
              ]
            ]
      ]
]

pub apply-Step :
    (s : State) (c : Command) {r : State × Outcome}
    → CommandInt64 c
    → HeldInt64 s.orders
    → apply s c ≡ ok r
    → Step s r.0
unfolding apply
apply-Step s c {r} hc hh e = go c.kind refl
  where
    go : (k : CommandKind) → c.kind ≡ k → Step s r.0
    go fund p = apply_fund-Step s c hc (rw (apply, p) at e)
    go submit_order p = apply_submit-Step s c hc (rw (apply, p) at e)
    go cancel_order p = apply_cancel-Step s c hh (rw (apply, p) at e)
    go unknown_kind p = absurd (let q = rw (apply, p) at e in ground arith)

-- The books balance: a fund, submit or cancel command that succeeds, with all its settlement of
-- fills, fees, holds and releases, leaves the total of every asset over all accounts as it was, and
-- brings no account but the treasury into debt, if none was. The balances, the amounts on hold and
-- the amounts of the request are int64 values.
pub apply_balances_books :
    (s s' : State) (c : Command) (out : Outcome) (a : Text)
    → CommandInt64 c
    → HeldInt64 s.orders
    → AllInt64 s.ledger.balances
    → Solvent s.ledger.balances
    → apply s c ≡ ok (s', out)
    → (asset_total a s'.ledger.balances ≡ asset_total a s.ledger.balances)
      × Solvent s'.ledger.balances
      × AllInt64 s'.ledger.balances
apply_balances_books s s' c out a hc hh hl hs e =
    let k = Posts-Kept s.ledger s'.ledger hl (apply-Step s c hc hh e).posts in
    (k.totals a, k.solvent hs, k.int64)

-- The amounts on hold of an index of orders, one after the other.
pub held_each :
    (d : Dict Text Order) → All (λ (p : Text × Order). IsInt64 p.1.held_amount) d → HeldInt64 d
unfolding lookup
held_each [] h id o e = absurd (ground arith)
held_each ((k, p) ∷ d) h id o e = elim (Bool-cases (k == id)) [
  | inl same ↦
      subst (λ (q : Order). IsInt64 q.held_amount) (some_injective (rw (lookup, same) at e)) h.0
  | inr other ↦ held_each d h.1 id o (rw (lookup, other) at e)
]
  where
    some_injective : {A : Type 0} {a b : A} → some a ≡ some b → a ≡ b
    some_injective q = cc
