-- ===== src/OrderBook/FillLaws.antt =====
-- The fills of Match of trading/orderbook/orderbook.go against the incoming order.
use qiu_market.OrderBook.Ops.{remove, remove_level}
use qiu_market.OrderBook.Match.{
  fill_taker, is_market_buy, match_round, store_maker, traded, match_order,
}
use qiu_market.OrderBook.Levels.{crosses}
use qiu_market.Prelude.{
  ℕ, zero, suc, [], ◌∷◌, ◌++◌, List, true, false, ◌≡◌, refl, arith, ◌∙◌, sym, ap, ◌<◌, Option,
  Bool-cases, inl, inr, ◌==◌, All, All-append, subst,
}
use qiu_market.Prelude.Int.{ℤ, pos, int_eq, IsInt64, ◌+ℤ◌, int_laws, +ℤ-zero}
use qiu_market.Prelude.Text.{text_eq, is_empty}
use qiu_market.Prelude.Result.{ok, >>=-eq-ok, ok-injective, Result-cases}
use qiu_market.Domain.{
  Side, buy, sell, unknown_side, Order, MarketConfig, checked_add, quote_amount_floor, Side,
}
use qiu_market.Domain.ArithLaws.{checked_add_sound, floor-IsInt64}
use qiu_market.OrderBook.Types.{Book, RawFill, MatchResult, StopReason}
use qiu_market.OrderBook.Index.{IsIndex, lookup-own}
use qiu_market.OrderBook.MatchLaws.{match_round-Traded, run-invariant, match_order-Run, round-falls}

-- A fill that an order may have: of another account, within its limit, of a positive quantity, at
-- the market's floor of price and quantity.
pub record IsFair (m : MarketConfig) (t : Order) (f : RawFill) : Type 0 where
  pub within_limit : crosses t.side t.order_type t.price f.price ≡ true
  pub other_account : (f.maker_account_id == t.account_id) ≡ false
  pub amount : ℕ
  pub quantity_eq : f.quantity ≡ pos (suc amount)
  pub quote_eq : quote_amount_floor m f.price f.quantity ≡ ok f.quote_amount

abbrev pub total_quantity : List RawFill → ℤ
total_quantity [] = pos 0
total_quantity (f ∷ fs) = f.quantity +ℤ total_quantity fs

abbrev pub total_quote : List RawFill → ℤ
total_quote [] = pos 0
total_quote (f ∷ fs) = f.quote_amount +ℤ total_quote fs

total_quantity-append :
    (xs ys : List RawFill) → total_quantity (xs ++ ys) ≡ total_quantity xs +ℤ total_quantity ys
total_quantity-append [] ys = omega int_laws
total_quantity-append (f ∷ xs) ys = rw (total_quantity-append xs ys) (omega int_laws)

total_quote-append :
    (xs ys : List RawFill) → total_quote (xs ++ ys) ≡ total_quote xs +ℤ total_quote ys
total_quote-append [] ys = omega int_laws
total_quote-append (f ∷ xs) ys = rw (total_quote-append xs ys) (omega int_laws)

-- What a fill leaves of the incoming order as it was.
record Same (t t' : Order) : Type 0 where
  side_eq : t'.side ≡ t.side
  type_eq' : t'.order_type ≡ t.order_type
  price_eq : t'.price ≡ t.price
  account_eq : t'.account_id ≡ t.account_id
  sequence_eq : t'.accepted_sequence ≡ t.accepted_sequence

fill_taker-Same :
    (t t' : Order) (q quote : ℤ)
    → fill_taker t q quote ≡ ok t'
    → Same t t'
      × (checked_add t.filled_quantity q ≡ ok t'.filled_quantity)
      × (checked_add t.spent_quote quote ≡ ok t'.spent_quote)
unfolding fill_taker
fill_taker-Same t t' q quote e =
    let (a, ea, e1) = >>=-eq-ok (checked_add t.filled_quantity q) _ e in
    let (c, ec, e2) = >>=-eq-ok (checked_add t.spent_quote quote) _ e1 in
    elim (Bool-cases (is_market_buy t)) [
      | inl buying ↦
          let k = ok-injective (rw buying at e2) in
          (
            subst (Same t) k (record {
              side_eq = refl;
              type_eq' = refl;
              price_eq = refl;
              account_eq = refl;
              sequence_eq = refl;
            }),
            ea ∙ ap (λ (u : Order). ok u.filled_quantity) k,
            ec ∙ ap (λ (u : Order). ok u.spent_quote) k,
          )
      | inr other ↦
          let k = ok-injective (rw other at e2) in
          (
            subst (Same t) k (record {
              side_eq = refl;
              type_eq' = refl;
              price_eq = refl;
              account_eq = refl;
              sequence_eq = refl;
            }),
            ea ∙ ap (λ (u : Order). ok u.filled_quantity) k,
            ec ∙ ap (λ (u : Order). ok u.spent_quote) k,
          )
    ]

remove-market : (b b' : Book) (o : Order) → remove b o ≡ ok b' → b'.market ≡ b.market
unfolding remove
remove-market b b' o e = go o.side refl
  where
    go : (s : Side) → o.side ≡ s → b'.market ≡ b.market
    go buy p = elim (Result-cases (remove_level o b.bids b.bid_prices)) [
      | inl (r, q) ↦ ground arith
      | inr (x, q) ↦ absurd (ground arith)
    ]
    go sell p = elim (Result-cases (remove_level o b.asks b.ask_prices)) [
      | inl (r, q) ↦ ground arith
      | inr (x, q) ↦ absurd (ground arith)
    ]
    go unknown_side p = absurd (ground arith)

store_maker-market : (b b' : Book) (o : Order) → store_maker b o ≡ ok b' → b'.market ≡ b.market
unfolding store_maker
store_maker-market b b' o e = elim (Bool-cases (o.remaining_quantity == pos 0)) [
  | inl done ↦ remove-market b b' o (rw done at e)
  | inr partial ↦ ap (λ (c : Book). c.market) (sym (ok-injective (rw partial at e)))
]

-- The invariant of the rounds for an order that came in as `t0`.
record Settled (m : MarketConfig) (t0 : Order) (b : Book) (t : Order) (fs : List RawFill)
    : Type 0 where
  index : IsIndex b.orders
  market_eq : b.market ≡ m
  same : Same t0 t
  fair : All (IsFair m t0) fs
  filled_eq : t.filled_quantity ≡ t0.filled_quantity +ℤ total_quantity fs
  spent_eq : t.spent_quote ≡ t0.spent_quote +ℤ total_quote fs
  filled_int64 : IsInt64 t.filled_quantity
  spent_int64 : IsInt64 t.spent_quote

pred_of : ℕ → ℕ
pred_of zero = 0
pred_of (suc n) = n

suc_pred : (n : ℕ) → 0 < n → n ≡ suc (pred_of n)
unfolding pred_of
suc_pred zero h = absurd (omega arith)
suc_pred (suc n) h = refl

running_sum : (a x s q c : ℤ) → x ≡ a +ℤ s → c ≡ x +ℤ q → c ≡ a +ℤ (s +ℤ (q +ℤ pos 0))
running_sum a x s q c e k = k ∙ rw e (omega int_laws)

quote-IsInt64 : (m : MarketConfig) (p q : ℤ) {v : ℤ} → quote_amount_floor m p q ≡ ok v → IsInt64 v
unfolding quote_amount_floor
quote-IsInt64 m p q e = floor-IsInt64 p q m.base_scale e

round-Settled :
    (m : MarketConfig) (t0 : Order) (b b' : Book) (t t' : Order) (fs : List RawFill) (f : RawFill)
    (stop : Option StopReason)
    → match_round b t ≡ ok (traded b' t' f stop)
    → Settled m t0 b t fs
    → Settled m t0 b' t' (fs ++ f ∷ [])
round-Settled m t0 b b' t t' fs f stop e h =
    let w = match_round-Traded b b' t t' f stop h.index e in
    let tr = w.trade in
    let (k, fe, se) = fill_taker-Same t t' f.quantity f.quote_amount tr.taker_eq in
    let s = h.same in
    let own = lookup-own w.maker.id w.maker b.orders h.index w.found in
    let amount : IsInt64 f.quantity =
      rw tr.quantity_eq (omega (arith, tr.within, own.1), omega arith) in
    let (filled, fi) = checked_add_sound t.filled_quantity f.quantity h.filled_int64 amount fe in
    let (spent, si) =
      checked_add_sound t.spent_quote f.quote_amount h.spent_int64
        (quote-IsInt64 b.market f.price f.quantity tr.quote_eq) se in
    record {
      index = (round-falls b b' t t' f stop h.index e).0;
      market_eq = store_maker-market b b' tr.maker' tr.stored ∙ h.market_eq;
      same = record {
        side_eq = k.side_eq ∙ s.side_eq;
        type_eq' = k.type_eq' ∙ s.type_eq';
        price_eq = k.price_eq ∙ s.price_eq;
        account_eq = k.account_eq ∙ s.account_eq;
        sequence_eq = k.sequence_eq ∙ s.sequence_eq;
      };
      fair = All-append (IsFair m t0) fs (f ∷ []) h.fair (
        record {
          within_limit = rw (← s.side_eq, ← s.type_eq', ← s.price_eq, tr.price_eq) w.within_limit;
          other_account = rw (← s.account_eq, tr.maker_eq.1) w.other_account;
          amount = pred_of tr.amount;
          quantity_eq = tr.quantity_eq ∙ ap pos (suc_pred tr.amount tr.positive);
          quote_eq = rw (← h.market_eq) tr.quote_eq;
        },
        tt,
      );
      filled_eq =
          running_sum _ _ _ _ _ h.filled_eq filled ∙ rw (total_quantity-append fs (f ∷ [])) refl;
      spent_eq = running_sum _ _ _ _ _ h.spent_eq spent ∙ rw (total_quote-append fs (f ∷ [])) refl;
      filled_int64 = fi;
      spent_int64 = si;
    }

-- Every fill that Match returns is within the incoming order's limit, of another account, of a
-- positive quantity, and for the market's floor of its price and quantity; what the incoming order
-- gained in filled quantity and spent quote is the sum over the fills. The book's index holds every
-- order under its own identifier and with an int64 remainder, before and after.
pub match_fills :
    (b b' : Book) (t t' : Order) (m : MatchResult)
    → IsIndex b.orders
    → IsInt64 t.filled_quantity
    → IsInt64 t.spent_quote
    → match_order b t ≡ ok (b', t', m)
    → All (IsFair b.market t) m.fills
      × (t'.filled_quantity ≡ t.filled_quantity +ℤ total_quantity m.fills)
      × (t'.spent_quote ≡ t.spent_quote +ℤ total_quote m.fills)
      × IsIndex b'.orders
unfolding match_order
match_fills b b' t t' m h hf hs e = elim (Bool-cases (is_empty t.id)) [
  | inl nameless ↦ absurd (ground arith)
  | inr named ↦
      let start : Settled b.market t b t [] = record {
        index = h;
        market_eq = refl;
        same = record {
          side_eq = refl;
          type_eq' = refl;
          price_eq = refl;
          account_eq = refl;
          sequence_eq = refl;
        };
        fair = tt;
        filled_eq = sym (+ℤ-zero t.filled_quantity);
        spent_eq = sym (+ℤ-zero t.spent_quote);
        filled_int64 = hf;
        spent_int64 = hs;
      } in
      let z =
        run-invariant (Settled b.market t) (round-Settled b.market t) (match_order-Run b t h named)
          e start in
      (z.fair, z.filled_eq, z.spent_eq, z.index)
]
