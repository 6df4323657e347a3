-- ===== src/Exchange/Posting.antt =====
-- The ledger of trading/exchange as a sequence of calls of Post.
use qiu_market.Domain.ArithLaws.{floor-IsInt64}
use qiu_market.Prelude.{
  ℕ, [], ◌≡◌, refl, arith, ◌∙◌, Bool-cases, Option-cases, inl, inr, ◌==◌, ◌||◌, subst,
}
use qiu_market.Prelude.Int.{ℤ, pos, sub64, neg64, int_eq, IsInt64, wrap64-IsInt64, ltb_ℤ, leb_ℤ}
use qiu_market.Prelude.Text.{Text, text_eq}
use qiu_market.Prelude.Dict.{lookup}
use qiu_market.Prelude.Result.{ok, >>=-eq-ok, ok-injective, reject_if}
use qiu_market.Domain.{Order, MarketConfig, Trade, fee_amount, buy, side_eq}
use qiu_market.OrderBook.{RawFill}
use qiu_market.Ledger.{Ledger, Transaction, post, move, release, hold, fund_virtual}
use qiu_market.Ledger.Drafts.{AllInt64, EntriesInt64}
use qiu_market.Ledger.Effect.{post_effect}
use qiu_market.Ledger.Conservation.{post_conserves, asset_total}
use qiu_market.Ledger.Moves.{post-Solvent, Solvent}
use qiu_market.Exchange.Types.{State}
use qiu_market.Exchange.Settle.{
  settle_fill, release_excess_buy_hold, roles_of, trade_entries, desired_buy_hold,
}

-- A ledger reached from another one by posting transactions whose amounts are int64 values.
pub data Posts : Ledger → Ledger → Type 0 where
  done : (l : Ledger) → Posts l l
  posted :
      (l l' l'' : Ledger) (tx : Transaction)
      → EntriesInt64 tx.entries
      → post l tx ≡ ok l'
      → Posts l' l''
      → Posts l l''

pub Posts-trans : (l l' l'' : Ledger) → Posts l l' → Posts l' l'' → Posts l l''
Posts-trans l l' l'' (done k) q = q
Posts-trans l l' l'' (posted k m n tx h e p) q = posted k m l'' tx h e (Posts-trans m n l'' p q)

one_post :
    (l l' : Ledger) (tx : Transaction) → EntriesInt64 tx.entries → post l tx ≡ ok l' → Posts l l'
one_post l l' tx h e = posted l l' l' tx h e (done l')

-- What posting keeps: int64 balances, the total of every asset, and balances that are not in debt.
pub record Kept (l l' : Ledger) : Type 0 where
  pub int64 : AllInt64 l'.balances
  pub totals : (a : Text) → asset_total a l'.balances ≡ asset_total a l.balances
  pub solvent : Solvent l.balances → Solvent l'.balances

pub Posts-Kept : (l l' : Ledger) → AllInt64 l.balances → Posts l l' → Kept l l'
Posts-Kept l l' h (done k) = record { int64 = h; totals = λ a. refl; solvent = λ s. s }
Posts-Kept l l' h (posted j m n tx he e p) =
    let hm = (post_effect l m tx (record { account = []; asset = [] }) h he e).0 in
    let k = Posts-Kept m l' hm p in
    record {
      int64 = k.int64;
      totals = λ a. k.totals a ∙ post_conserves l m tx a h he e;
      solvent = λ s. k.solvent (post-Solvent l m tx h he s e);
    }

neg64-IsInt64 : (a : ℤ) → IsInt64 (neg64 a)
unfolding neg64
neg64-IsInt64 a = wrap64-IsInt64 _

pub sub64-IsInt64 : (a b : ℤ) → IsInt64 (sub64 a b)
unfolding sub64
sub64-IsInt64 a b = wrap64-IsInt64 _

pub fund-Posts :
    (l l' : Ledger) (tx_id reference account asset : Text) (v : ℤ)
    → IsInt64 v
    → fund_virtual l tx_id reference account asset v ≡ ok l'
    → Posts l l'
unfolding fund_virtual
fund-Posts l l' tx_id reference account asset v h e =
    let (_, _, e1) = >>=-eq-ok (reject_if (leb_ℤ v (pos 0)) _) _ e in
    one_post l l' _ (neg64-IsInt64 v, (h, tt)) e1

pub release-Posts :
    (l l' : Ledger) (tx_id reference account asset : Text) (v : ℤ)
    → IsInt64 v
    → release l tx_id reference account asset v ≡ ok l'
    → Posts l l'
unfolding release move
release-Posts l l' tx_id reference account asset v h e =
    let (_, _, e1) = >>=-eq-ok (reject_if (leb_ℤ v (pos 0)) _) _ e in
    one_post l l' _ (neg64-IsInt64 v, (h, tt)) e1

pub hold-Posts :
    (l l' : Ledger) (tx_id reference account asset : Text) (v : ℤ)
    → IsInt64 v
    → hold l tx_id reference account asset v ≡ ok l'
    → Posts l l'
unfolding hold move
hold-Posts l l' tx_id reference account asset v h e =
    let (_, _, e1) = >>=-eq-ok (reject_if (leb_ℤ v (pos 0)) _) _ e in
    one_post l l' _ (neg64-IsInt64 v, (h, tt)) e1

fee_amount-IsInt64 : (a rate : ℤ) {v : ℤ} → fee_amount a rate ≡ ok v → IsInt64 v
unfolding fee_amount
fee_amount-IsInt64 a rate {v} e =
    let (_, _, e1) =
      >>=-eq-ok (reject_if (ltb_ℤ a (pos 0) || ltb_ℤ rate (pos 0) || leb_ℤ (pos 10000) rate) _) _
        e in
    elim (Bool-cases (a == pos 0 || rate == pos 0)) [
      | inl nought ↦
          (let k : ok (pos 0) ≡ ok v = rw nought at e1 in
            rw (← ok-injective k) (omega arith, omega arith))
      | inr some_fee ↦ floor-IsInt64 a rate (pos 10000) (rw some_fee at e1)
    ]

trade_entries-Int64 :
    (m : MarketConfig) (buyer seller : Text) (fill : RawFill) (bf sf : ℤ)
    → IsInt64 bf
    → IsInt64 sf
    → EntriesInt64 (trade_entries m buyer seller fill bf sf)
unfolding trade_entries
trade_entries-Int64 m buyer seller fill bf sf hb hs = elim (Bool-cases (ltb_ℤ (pos 0) sf)) [
  | inl s ↦ elim (Bool-cases (ltb_ℤ (pos 0) bf)) [
    | inl b ↦
        rw (s, b)
          (
            neg64-IsInt64 _,
            (sub64-IsInt64 _ _, (neg64-IsInt64 _, (sub64-IsInt64 _ _, (hs, (hb, tt))))),
          )
    | inr b ↦
        rw (s, b)
          (neg64-IsInt64 _, (sub64-IsInt64 _ _, (neg64-IsInt64 _, (sub64-IsInt64 _ _, (hs, tt)))))
  ]
  | inr s ↦ elim (Bool-cases (ltb_ℤ (pos 0) bf)) [
    | inl b ↦
        rw (s, b)
          (neg64-IsInt64 _, (sub64-IsInt64 _ _, (neg64-IsInt64 _, (sub64-IsInt64 _ _, (hb, tt)))))
    | inr b ↦
        rw (s, b) (neg64-IsInt64 _, (sub64-IsInt64 _ _, (neg64-IsInt64 _, (sub64-IsInt64 _ _, tt))))
  ]
]

pub settle_fill-Posts :
    (s : State) (sequence index : ℕ) (o : Order) (f : RawFill) {r : Ledger × Trade}
    → settle_fill s sequence index o f ≡ ok r
    → Posts s.ledger r.0
unfolding settle_fill
settle_fill-Posts s sequence index o f {r} e =
    elim (Option-cases (lookup f.maker_order_id s.orders)) [
      | inl gone ↦ absurd (ground arith)
      | inr (maker, there) ↦
          let w = roles_of s.market maker o in
          let (bf, eb, e1) =
            >>=-eq-ok (fee_amount f.quantity w.buyer_rate) _ (rw (settle_fill, there) at e) in
          let (sf, es, e2) = >>=-eq-ok (fee_amount f.quote_amount w.seller_rate) _ e1 in
          let (_, _, e3) =
            >>=-eq-ok
              (reject_if
                (leb_ℤ (sub64 f.quantity bf) (pos 0) || leb_ℤ (sub64 f.quote_amount sf) (pos 0)) _)
              _ e2 in
          let (l, el, e4) = >>=-eq-ok (post s.ledger _) _ e3 in
          subst (λ (p : Ledger × Trade). Posts s.ledger p.0) (ok-injective e4)
            (one_post s.ledger l _
              (trade_entries-Int64 s.market w.buyer.account_id w.seller.account_id f bf sf
                (fee_amount-IsInt64 f.quantity w.buyer_rate eb)
                (fee_amount-IsInt64 f.quote_amount w.seller_rate es))
              el)
    ]

pub release_excess-Posts :
    (m : MarketConfig) (l : Ledger) (sequence index : ℕ) (o : Order) {r : Ledger × Order}
    → release_excess_buy_hold m l sequence index o ≡ ok r
    → Posts l r.0
unfolding release_excess_buy_hold
release_excess-Posts m l sequence index o {r} e = elim (Bool-cases (o.side == buy)) [
  | inl buying ↦
      let (d, ed, e1) = >>=-eq-ok (desired_buy_hold m o) _ (rw buying at e) in
      let (_, _, e2) = >>=-eq-ok (reject_if (ltb_ℤ o.held_amount d) _) _ e1 in
      elim (Bool-cases (sub64 o.held_amount d == pos 0)) [
        | inl nought ↦
            subst (λ (p : Ledger × Order). Posts l p.0) (ok-injective (rw nought at e2)) (done l)
        | inr excess ↦
            let (l', el, e3) =
              >>=-eq-ok (release l _ _ o.account_id m.quote_asset (sub64 o.held_amount d)) _
                (rw excess at e2) in
            subst (λ (p : Ledger × Order). Posts l p.0) (ok-injective e3)
              (release-Posts l l' _ _ o.account_id m.quote_asset (sub64 o.held_amount d)
                (sub64-IsInt64 _ _) el)
      ]
  | inr other ↦ subst (λ (p : Ledger × Order). Posts l p.0) (ok-injective (rw other at e)) (done l)
]
