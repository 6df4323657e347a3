-- ===== src/OrderBook/Rounds.antt =====
-- One round of Match of trading/orderbook/orderbook.go.
use qiu_market.Domain.ArithLaws.{mul_div_signs}
use qiu_market.OrderBook.Index.{
  IsIndex, lookup-own, erase-IsIndex, resting-erase, resting-insert, insert-IsIndex,
}
use qiu_market.OrderBook.Match.{
  executable_quantity, store_maker, resting_quantity, is_market_buy, fill_maker, trade_with,
  fill_taker, traded,
}
use qiu_market.OrderBook.Ops.{remove, remove_level}
use qiu_market.Prelude.{
  ℕ, true, false, Bool, ◌≡◌, refl, arith, ◌∙◌, ◌+◌, ◌≤◌, ◌<◌, Option, some, Bool-cases, inl, inr,
  ◌==◌, if◌then◌else◌, ◌-◌,
}
use qiu_market.Domain.ArithLaws.{mul_div_signs}
use qiu_market.Prelude.Int.{
  int_eq, ℤ, pos, negsuc, pos_part, leb_ℤ, ltb_ℤ, max_word, sub64, sub64-nonneg, int_eq,
}
use qiu_market.Prelude.Dict.{erase, insert, lookup}
use qiu_market.Prelude.Text.{text_eq}
use qiu_market.Prelude.Result.{ok, >>=-eq-ok, ok-injective, Result-cases, reject_if, internal}
use qiu_market.Domain.{
  Order, MarketConfig, buy, sell, unknown_side, Side, quote_amount_floor, checked_mul_div_floor,
  checked_mul_div, affordable_quantity, checked_add,
}
use qiu_market.OrderBook.Types.{
  Book, StopReason, no_reason, budget_exhausted, input_exhausted, RawFill,
}

-- remove deletes its order from the index.
remove-orders : (b b' : Book) (o : Order) → remove b o ≡ ok b' → b'.orders ≡ erase o.id b.orders
unfolding remove
remove-orders b b' o e = go o.side refl
  where
    go : (s : Side) → o.side ≡ s → b'.orders ≡ erase o.id b.orders
    go buy p = elim (Result-cases (remove_level o b.bids b.bid_prices)) [
      | inl (r, q) ↦ ground arith
      | inr (x, q) ↦ absurd (ground arith)
    ]
    go sell p = elim (Result-cases (remove_level o b.asks b.ask_prices)) [
      | inl (r, q) ↦ ground arith
      | inr (x, q) ↦ absurd (ground arith)
    ]
    go unknown_side p = absurd (ground arith)

-- The quantity that executableQuantity settles on, of a limit and what the maker has.
abbrev capped : Bool → StopReason → ℤ → ℤ → ℤ × StopReason
capped b why a c =
    if b then (pos 0, why) else (if ltb_ℤ c a then (c, no_reason) else (a, no_reason))

capped-le :
    (b : Bool) (a c : ℤ) (why : StopReason) {q : ℤ} {reason : StopReason} (n : ℕ)
    → ok (capped b why a c) ≡ ok (q, reason)
    → q ≡ pos n
    → 0 < n
    → n ≤ pos_part c
capped-le true a c why n h e p = absurd (ground arith)
capped-le false a c why n h e p = ground arith

executable-le :
    (m : MarketConfig) (o maker : Order) {q : ℤ} {reason : StopReason} (n : ℕ)
    → executable_quantity m o maker ≡ ok (q, reason)
    → q ≡ pos n
    → 0 < n
    → n ≤ pos_part maker.remaining_quantity
unfolding executable_quantity
executable-le m o maker n h e p = elim (Bool-cases (is_market_buy o)) [
  | inl buying ↦ elim (Result-cases (affordable_quantity m o.remaining_quote_budget maker.price)) [
    | inl (a, q) ↦
        let k = rw (buying, q) at h in
        capped-le (a == pos 0) a maker.remaining_quantity budget_exhausted n k e p
    | inr (x, q) ↦ absurd (ground arith)
  ]
  | inr other ↦
      let k = rw other at h in
      capped-le (leb_ℤ o.remaining_quantity (pos 0)) o.remaining_quantity maker.remaining_quantity
        input_exhausted n k e p
]

-- A quantity that can be traded is a positive amount, and no more than the maker has left.
executable-bounds :
    (m : MarketConfig) (o maker : Order) {q quote : ℤ} {reason : StopReason}
    → executable_quantity m o maker ≡ ok (q, reason)
    → (q == pos 0) ≡ false
    → quote_amount_floor m maker.price q ≡ ok quote
    → (n : ℕ) × (q ≡ pos n) × (0 < n) × (n ≤ pos_part maker.remaining_quantity)
unfolding executable_quantity quote_amount_floor checked_mul_div_floor
executable-bounds m o maker {q} e h k =
    let (r, c, _) = >>=-eq-ok (checked_mul_div maker.price q m.base_scale) (λ r. ok r.0) k in
    let (x, n, z, _, qn, _, _) = mul_div_signs maker.price q m.base_scale c in
    (n, qn, ground arith, executable-le m o maker n e qn (ground arith))

rest-parts :
    (a c : ℤ) (n : ℕ)
    → c ≡ sub64 a (pos n)
    → 0 < n
    → n ≤ pos_part a
    → pos_part a ≤ max_word
    → (c ≡ pos (pos_part a - n)) × (pos_part c + n ≡ pos_part a)
rest-parts (pos x) c n e p le b = let k = e ∙ sub64-nonneg x n le b in (k, ground arith)
rest-parts (negsuc x) c n e p le b = absurd (ground arith)

pub store-resting :
    (b b' : Book) (maker maker' : Order) (n : ℕ)
    → IsIndex b.orders
    → lookup maker.id b.orders ≡ some maker
    → maker'.id ≡ maker.id
    → maker'.remaining_quantity ≡ sub64 maker.remaining_quantity (pos n)
    → 0 < n
    → n ≤ pos_part maker.remaining_quantity
    → store_maker b maker' ≡ ok b'
    → IsIndex b'.orders × (resting_quantity b'.orders < resting_quantity b.orders)
unfolding store_maker
store-resting b b' maker maker' n h l i r p le e =
    let own = lookup-own maker.id maker b.orders h l in
    let (_, weight) =
      rest-parts maker.remaining_quantity maker'.remaining_quantity n r p le own.1 in
    let l' : lookup maker'.id b.orders ≡ some maker = rw i l in
    elim (Bool-cases (maker'.remaining_quantity == pos 0)) [
      | inl done ↦
          let o : b'.orders ≡ erase maker'.id b.orders = remove-orders b b' maker' (rw done at e) in
          let fall = resting-erase maker'.id maker b.orders l' in
          rw o (erase-IsIndex maker'.id b.orders h, omega arith)
      | inr partial ↦
          let o : record b { orders = insert maker'.id maker' b.orders } ≡ b' =
            ok-injective (rw partial at e) in
          let fall = resting-insert maker'.id maker maker' b.orders l' in
          rw (← o) (insert-IsIndex maker'.id maker' b.orders refl (omega arith) h, omega arith)
    ]

-- What a round that trades with a maker has done.
pub record Deal (b : Book) (t maker : Order) (b' : Book) (t' : Order) (f : RawFill) : Type 0 where
  pub amount : ℕ
  pub quantity_eq : f.quantity ≡ pos amount
  pub positive : 0 < amount
  pub within : amount ≤ pos_part maker.remaining_quantity
  pub price_eq : f.price ≡ maker.price
  pub maker_eq : (f.maker_order_id ≡ maker.id) × (f.maker_account_id ≡ maker.account_id)
  pub quote_eq : quote_amount_floor b.market f.price f.quantity ≡ ok f.quote_amount
  pub maker' : Order
  pub maker'_eq : fill_maker maker f.quantity f.quote_amount t.accepted_sequence ≡ ok maker'
  pub stored : store_maker b maker' ≡ ok b'
  pub taker_eq : fill_taker t f.quantity f.quote_amount ≡ ok t'

pub fill_maker-keeps :
    (maker maker' : Order) (q quote : ℤ) (s : ℕ)
    → fill_maker maker q quote s ≡ ok maker'
    → (maker'.id ≡ maker.id)
      × (maker'.account_id ≡ maker.account_id)
      × (maker'.price ≡ maker.price)
      × (maker'.remaining_quantity ≡ sub64 maker.remaining_quantity q)
unfolding fill_maker
fill_maker-keeps maker maker' q quote s e =
    elim (Result-cases (checked_add maker.filled_quantity q)) [
      | inl (a, ea) ↦ elim (Result-cases (checked_add maker.spent_quote quote)) [
        | inl (c, ec) ↦ ground arith
        | inr (x, ec) ↦ absurd (ground arith)
      ]
      | inr (x, ea) ↦ absurd (ground arith)
    ]

pub trade_with-Deal :
    (b b' : Book) (t t' maker : Order) (f : RawFill) (stop : Option StopReason)
    → trade_with b t maker ≡ ok (traded b' t' f stop)
    → Deal b t maker b' t' f
unfolding trade_with
trade_with-Deal b b' t t' maker f stop e =
    let (x, ex, e1) = >>=-eq-ok (executable_quantity b.market t maker) _ e in
    elim (Bool-cases (x.0 == pos 0)) [
      | inl none_left ↦ absurd (ground arith)
      | inr left ↦
          let (quote, eq, e2) =
            >>=-eq-ok (quote_amount_floor b.market maker.price x.0) _ (rw left at e1) in
          let (_, _, e3) = >>=-eq-ok (reject_if (leb_ℤ quote (pos 0)) internal) _ e2 in
          let (mk, em, e4) = >>=-eq-ok (fill_maker maker x.0 quote t.accepted_sequence) _ e3 in
          let (b2, eb, e5) = >>=-eq-ok (store_maker b mk) _ e4 in
          let (t2, et, e6) = >>=-eq-ok (fill_taker t x.0 quote) _ e5 in
          let (n, en, pn, ln) = executable-bounds b.market t maker ex left eq in
          let (ids, accounts, prices, _) =
            fill_maker-keeps maker mk x.0 quote t.accepted_sequence em in
          record {
            amount = n;
            quantity_eq = ground arith;
            positive = pn;
            within = ln;
            price_eq = ground arith;
            maker_eq = (ground arith, ground arith);
            quote_eq = ground arith;
            maker' = mk;
            maker'_eq = ground arith;
            stored = ground arith;
            taker_eq = ground arith;
          }
    ]
