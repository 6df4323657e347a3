-- ===== src/Exchange/Conservation.antt =====
-- What a command of trading/exchange does to the ledger, and what it leaves as it was.
use qiu_market.Domain.ArithLaws.{ceil-IsInt64}
use qiu_market.Exchange.Settle.{
  reserve_for, settle_fill, consume_order_hold, release_excess_buy_hold,
}
use qiu_market.Exchange.Submit.{execute_order, finish_submit}
use qiu_market.Exchange.Closing.{release_surplus, release_taker_hold, final_status, should_rest}
use qiu_market.Exchange.Fills.{
  apply_fill, apply_fills, Progress, filled_maker, settle_maker_in_book, event_remainders,
}
use qiu_market.Prelude.{
  ℕ, [], ◌∷◌, List, ◌≡◌, refl, ◌∙◌, ◌+◌, Bool-cases, inl, inr, ◌==◌, if◌then◌else◌, subst,
}
use qiu_market.Prelude.Int.{ℤ, pos, sub64, int_eq, IsInt64, ltb_ℤ}
use qiu_market.Prelude.Text.{Text, text_eq}
use qiu_market.Prelude.Result.{ok, >>=-eq-ok, ok-injective, reject_if}
use qiu_market.Domain.{
  Order, MarketConfig, Outcome, NewOrder, quote_amount_ceil, sell, checked_mul_div_ceil, side_eq,
  type_eq,
}
use qiu_market.OrderBook.{RawFill, MatchResult, match_order, add}
use qiu_market.Ledger.{Ledger, release}
use qiu_market.Exchange.Types.{State}
use qiu_market.Exchange.Settle.{release_excess_buy_hold}
use qiu_market.Domain.ArithLaws.{ceil-IsInt64}
use qiu_market.Domain.{market}
use qiu_market.Exchange.Posting.{
  Posts, done, Posts-trans, settle_fill-Posts, release_excess-Posts, release-Posts, sub64-IsInt64,
}

-- A step of the state: the market and the kept requests stay, and the ledger grows by posting.
pub record Step (s s' : State) : Type 0 where
  pub market_eq : s'.market ≡ s.market
  pub sequence_eq : s'.sequence ≡ s.sequence
  pub requests_eq : s'.requests ≡ s.requests
  pub posts : Posts s.ledger s'.ledger

pub Step-trans : (s s' s'' : State) → Step s s' → Step s' s'' → Step s s''
Step-trans s s' s'' p q = record {
  market_eq = q.market_eq ∙ p.market_eq;
  sequence_eq = q.sequence_eq ∙ p.sequence_eq;
  requests_eq = q.requests_eq ∙ p.requests_eq;
  posts = Posts-trans s.ledger s'.ledger s''.ledger p.posts q.posts;
}

pub still : (s : State) → Step s s
still s = record { market_eq = refl; sequence_eq = refl; requests_eq = refl; posts = done s.ledger }

apply_fill-Step :
    (sequence index : ℕ) (f : RawFill) (p p' : Progress)
    → apply_fill sequence index f p ≡ ok p'
    → Step p.state p'.state
unfolding apply_fill
apply_fill-Step sequence index f p p' e =
    let s = p.state in
    let (a, ea, e1) = >>=-eq-ok (settle_fill s sequence index p.order f) _ e in
    let (o, _, e2) = >>=-eq-ok (consume_order_hold p.order f) _ e1 in
    let (m1, _, e3) = >>=-eq-ok (filled_maker _ f sequence) _ e2 in
    let (m2, _, e4) = >>=-eq-ok (consume_order_hold m1 f) _ e3 in
    let (r, er, e5) = >>=-eq-ok (release_excess_buy_hold s.market a.0 sequence index m2) _ e4 in
    let (b, _, e6) = >>=-eq-ok (settle_maker_in_book s.book r.1) _ e5 in
    let (w, _, e7) = >>=-eq-ok (event_remainders o f p.event_quantity p.event_budget) _ e6 in
    subst (λ (q : Progress). Step s q.state) (ok-injective e7)
      (record {
        market_eq = refl;
        sequence_eq = refl;
        requests_eq = refl;
        posts =
            Posts-trans s.ledger a.0 r.0 (settle_fill-Posts s sequence index p.order f ea)
              (release_excess-Posts s.market a.0 sequence index m2 er);
      })

apply_fills-Step :
    (sequence index : ℕ) (fs : List RawFill) (p p' : Progress)
    → apply_fills sequence index fs p ≡ ok p'
    → Step p.state p'.state
unfolding apply_fills
apply_fills-Step sequence index [] p p' e =
    subst (λ (q : Progress). Step p.state q.state) (ok-injective e) (still p.state)
apply_fills-Step sequence index (f ∷ fs) p p' e =
    let (q, eq, rest) = >>=-eq-ok (apply_fill sequence index f p) _ e in
    Step-trans p.state q.state p'.state (apply_fill-Step sequence index f p q eq)
      (apply_fills-Step sequence (index + 1) fs q p' rest)

release_taker-Posts :
    (l : Ledger) (sequence : ℕ) (asset : Text) (o : Order) (v : ℤ) {r : Ledger × Order}
    → IsInt64 v
    → release_taker_hold l sequence asset o v ≡ ok r
    → Posts l r.0
unfolding release_taker_hold
release_taker-Posts l sequence asset o v h e =
    let (l', el, e1) = >>=-eq-ok (release l _ _ o.account_id asset v) _ e in
    subst (λ (p : Ledger × Order). Posts l p.0) (ok-injective e1)
      (release-Posts l l' _ _ o.account_id asset v h el)

release_surplus-Posts :
    (l : Ledger) (sequence : ℕ) (asset : Text) (o : Order) (d : ℤ) {r : Ledger × Order}
    → release_surplus l sequence asset o d ≡ ok r
    → Posts l r.0
unfolding release_surplus
release_surplus-Posts l sequence asset o d e =
    let v = sub64 o.held_amount d in
    let (_, _, e1) = >>=-eq-ok (reject_if (ltb_ℤ o.held_amount d) _) _ e in
    elim (Bool-cases (ltb_ℤ (pos 0) v)) [
      | inl more ↦
          let (q, eq, e2) = >>=-eq-ok (release_taker_hold l sequence asset o v) _ (rw more at e1) in
          subst (λ (p : Ledger × Order). Posts l p.0) (ok-injective e2)
            (release_taker-Posts l sequence asset o v (sub64-IsInt64 _ _) eq)
      | inr nought ↦
          subst (λ (p : Ledger × Order). Posts l p.0) (ok-injective (rw nought at e1)) (done l)
    ]

finish_submit-Step :
    (sequence : ℕ) (asset : Text) (m : MatchResult) (p : Progress) {r : State × Outcome}
    → finish_submit sequence asset m p ≡ ok r
    → Step p.state r.0
unfolding finish_submit
finish_submit-Step sequence asset m p e =
    let s = p.state in
    let (d, _, e1) = >>=-eq-ok (final_status s.market p.order m) _ e in
    let (q, eq, e2) = >>=-eq-ok (release_surplus s.ledger sequence asset d.0 d.1) _ e1 in
    let (b, _, e3) =
      >>=-eq-ok (if should_rest p.order m.stop_reason then add s.book q.1 else ok s.book) _ e2 in
    subst (λ (w : State × Outcome). Step s w.0) (ok-injective e3)
      (record {
        market_eq = refl;
        sequence_eq = refl;
        requests_eq = refl;
        posts = release_surplus-Posts s.ledger sequence asset d.0 d.1 eq;
      })

pub execute_order-Step :
    (s : State) (sequence : ℕ) (n : NewOrder) (asset : Text) (o : Order) {r : State × Outcome}
    → execute_order s sequence n asset o ≡ ok r
    → Step s r.0
unfolding execute_order
execute_order-Step s sequence n asset o {r} e =
    let (m, _, e1) = >>=-eq-ok (match_order s.book o) _ e in
    let (p, ep, e2) = >>=-eq-ok (apply_fills sequence 1 m.2.fills _) _ e1 in
    let first = apply_fills-Step sequence 1 m.2.fills _ p ep in
    let last = finish_submit-Step sequence asset m.2 p e2 in
    Step-trans s p.state r.0
      (record {
        market_eq = first.market_eq;
        sequence_eq = first.sequence_eq;
        requests_eq = first.requests_eq;
        posts = first.posts;
      })
      last

pub reserve-IsInt64 :
    (m : MarketConfig) (o : Order) {r : Text × ℤ}
    → IsInt64 o.remaining_quantity
    → IsInt64 o.remaining_quote_budget
    → reserve_for m o ≡ ok r
    → IsInt64 r.1
unfolding reserve_for quote_amount_ceil
reserve-IsInt64 m o hq hb e = elim (Bool-cases (o.side == sell)) [
  | inl selling ↦ subst (λ (w : Text × ℤ). IsInt64 w.1) (ok-injective (rw selling at e)) hq
  | inr buying ↦ elim (Bool-cases (o.order_type == market)) [
    | inl at_market ↦
        subst (λ (w : Text × ℤ). IsInt64 w.1) (ok-injective (rw (buying, at_market) at e)) hb
    | inr at_limit ↦
        let (v, ev, e1) =
          >>=-eq-ok (checked_mul_div_ceil o.price o.remaining_quantity m.base_scale) _
            (rw (buying, at_limit) at e) in
        subst (λ (w : Text × ℤ). IsInt64 w.1) (ok-injective e1) (ceil-IsInt64 _ _ _ ev)
  ]
]
