-- ===== src/OrderBook/MatchLaws.antt =====
-- The loop of Match of trading/orderbook/orderbook.go, round by round.
use qiu_market.OrderBook.Levels.{crosses}
use qiu_market.OrderBook.Match.{
  best_opposing, front_order, match_round, traded, match_loop, match_order, resting_quantity,
  stopped, Round,
}
use qiu_market.Prelude.{
  ℕ, zero, suc, [], ◌∷◌, ◌++◌, List, true, false, ◌≡◌, refl, arith, ◌∙◌, ap, ◌<◌, Option, none,
  some, Bool-cases, inl, inr, ◌==◌, Option-cases, subst,
}
use qiu_market.Prelude.Int.{ℤ, pos_part, sub64, int_eq}
use qiu_market.Prelude.Dict.{Dict, lookup, lookup_or}
use qiu_market.Prelude.Text.{Text, text_eq, is_empty}
use qiu_market.Prelude.Result.{Result, ok, err, >>=-eq-ok, ok-injective, Error}
use qiu_market.Domain.{Order, buy, sell, unknown_side, Side}
use qiu_market.OrderBook.Types.{Book, zero_order, RawFill, MatchResult, StopReason}
use qiu_market.OrderBook.Index.{IsIndex, lookup-own}
use qiu_market.OrderBook.Rounds.{Deal, trade_with-Deal, store-resting, fill_maker-keeps}

front-source :
    (b : Book) (levels : Dict ℤ (List Text)) (prices : List ℤ) (maker : Order)
    → front_order b levels prices ≡ ok (some maker)
    → (id : Text) × (maker ≡ lookup_or zero_order id b.orders)
unfolding front_order
front-source b levels [] maker e = absurd (ground arith)
front-source b levels (price ∷ prices) maker e = go (lookup_or [] price levels) refl
  where
    go :
        (q : List Text)
        → lookup_or [] price levels ≡ q
        → (id : Text) × (maker ≡ lookup_or zero_order id b.orders)
    go [] p = absurd (ground arith)
    go (id ∷ ids) p = (id, ground arith)

best-source :
    (b : Book) (side : Side) (maker : Order)
    → best_opposing b side ≡ ok (some maker)
    → (id : Text) × (maker ≡ lookup_or zero_order id b.orders)
unfolding best_opposing
best-source b buy maker e = front-source b b.asks b.ask_prices maker e
best-source b sell maker e = front-source b b.bids b.bid_prices maker e
best-source b unknown_side maker e = absurd (ground arith)

-- An order read from the index that has something left is in the index.
found-own :
    (id : Text) (maker : Order) (d : Dict Text Order)
    → IsIndex d
    → maker ≡ lookup_or zero_order id d
    → 0 < pos_part maker.remaining_quantity
    → lookup maker.id d ≡ some maker
unfolding lookup_or
found-own id maker d h e p = elim (Option-cases (lookup id d)) [
  | inl gone ↦ absurd (
      let q : maker ≡ zero_order = e ∙ rw (lookup_or, gone) refl in
      let left = ap (λ o. pos_part o.remaining_quantity) q in omega arith)
  | inr (o, there) ↦
      let q : maker ≡ o = e ∙ rw (lookup_or, there) refl in
      rw q (ap (λ k. lookup k d) (lookup-own id o d h there).0 ∙ there)
]

-- A round that trades: with an order of the index, within the limit, of another account.
pub record Traded (b : Book) (t : Order) (b' : Book) (t' : Order) (f : RawFill) : Type 0 where
  pub maker : Order
  pub found : lookup maker.id b.orders ≡ some maker
  pub within_limit : crosses t.side t.order_type t.price maker.price ≡ true
  pub other_account : (maker.account_id == t.account_id) ≡ false
  pub trade : Deal b t maker b' t' f

pub match_round-Traded :
    (b b' : Book) (t t' : Order) (f : RawFill) (stop : Option StopReason)
    → IsIndex b.orders
    → match_round b t ≡ ok (traded b' t' f stop)
    → Traded b t b' t' f
unfolding match_round
match_round-Traded b b' t t' f stop h e =
    let (best, eb, e1) = >>=-eq-ok (best_opposing b t.side) _ e in
    elim (Option-cases best) [
      | inl gone ↦ absurd (ground arith)
      | inr (maker, there) ↦
          let e2 = rw there at e1 in
          elim (Bool-cases (crosses t.side t.order_type t.price maker.price)) [
            | inl within ↦ elim (Bool-cases (maker.account_id == t.account_id)) [
              | inl own ↦ absurd (ground arith)
              | inr other ↦
                  let tr = trade_with-Deal b b' t t' maker f stop (rw (within, other) at e2) in
                  let (id, src) = best-source b t.side maker (eb ∙ ap ok there) in
                  let left : 0 < pos_part maker.remaining_quantity =
                    omega (arith, tr.positive, tr.within) in
                  record {
                    maker = maker;
                    found = found-own id maker b.orders h src left;
                    within_limit = within;
                    other_account = other;
                    trade = tr;
                  }
            ]
            | inr beyond ↦ absurd (ground arith)
          ]
    ]

-- What a run of the loop comes to: an error of a round, or the rounds up to one that stops.
pub data Run : Book → Order → List RawFill → Result (Book × Order × MatchResult) → Type 0 where
  failed :
      (b : Book) (t : Order) (fs : List RawFill) (e : Error)
      → match_round b t ≡ err e
      → Run b t fs (err e)
  ended :
      (b : Book) (t : Order) (fs : List RawFill) (why : StopReason)
      → match_round b t ≡ ok (stopped why)
      → Run b t fs (ok (b, t, record { fills = fs; stop_reason = why }))
  last :
      (b b' : Book) (t t' : Order) (fs : List RawFill) (f : RawFill) (why : StopReason)
      → match_round b t ≡ ok (traded b' t' f (some why))
      → Run b t fs (ok (b', t', record { fills = fs ++ f ∷ []; stop_reason = why }))
  next :
      (b b' : Book) (t t' : Order) (fs : List RawFill) (f : RawFill)
      (r : Result (Book × Order × MatchResult))
      → match_round b t ≡ ok (traded b' t' f none)
      → Run b' t' (fs ++ f ∷ []) r
      → Run b t fs r

pub round-falls :
    (b b' : Book) (t t' : Order) (f : RawFill) (stop : Option StopReason)
    → IsIndex b.orders
    → match_round b t ≡ ok (traded b' t' f stop)
    → IsIndex b'.orders × (resting_quantity b'.orders < resting_quantity b.orders)
round-falls b b' t t' f stop h e =
    let w = match_round-Traded b b' t t' f stop h e in
    let tr = w.trade in
    let (i, _, _, r) =
      fill_maker-keeps w.maker tr.maker' f.quantity f.quote_amount t.accepted_sequence
        tr.maker'_eq in
    store-resting b b' w.maker tr.maker' tr.amount h w.found i
      (r ∙ ap (sub64 w.maker.remaining_quantity) tr.quantity_eq) tr.positive tr.within tr.stored

match_loop-Run :
    (fuel : ℕ) (b : Book) (t : Order) (fs : List RawFill)
    → IsIndex b.orders
    → resting_quantity b.orders < fuel
    → Run b t fs (match_loop fuel b t fs)
unfolding match_loop
match_loop-Run zero b t fs h l = absurd (omega arith)
match_loop-Run (suc fuel) b t fs h l =
    go (λ b' t' fs' h' l'. match_loop-Run fuel b' t' fs' h' l') (match_round b t) refl
  where
    go :
        ((b' : Book) (t' : Order) (fs' : List RawFill)
          → IsIndex b'.orders
          → resting_quantity b'.orders < fuel
          → Run b' t' fs' (match_loop fuel b' t' fs'))
        → (r : Result Round) → match_round b t ≡ r
        → Run b t fs (match_loop (suc fuel) b t fs)
    go ih (err x) e = rw (match_loop, e) (failed b t fs x e)
    go ih (ok (stopped why)) e = rw (match_loop, e) (ended b t fs why e)
    go ih (ok (traded b' t' f (some why))) e = rw (match_loop, e) (last b b' t t' fs f why e)
    go ih (ok (traded b' t' f none)) e =
        let (h', l') = round-falls b b' t t' f none h e in
        rw (match_loop, e) (next b b' t t' fs f _ e (ih b' t' (fs ++ f ∷ []) h' (omega arith)))

-- Match ends: for an incoming order with an identifier, and a book whose index holds every order
-- under its own identifier, the result is the one that the rounds come to, an error of a round or
-- the first round that stops; the loop never runs out of rounds.
pub match_order-Run :
    (b : Book) (t : Order) → IsIndex b.orders → is_empty t.id ≡ false → Run b t [] (match_order b t)
unfolding match_order
match_order-Run b t h e =
    rw e (match_loop-Run (suc (resting_quantity b.orders)) b t [] h (omega arith))

-- An invariant of the rounds holds at the end of a run that succeeds.
pub run-invariant :
    (I : Book → Order → List RawFill → Type 0)
    → ((b b' : Book) (t t' : Order) (fs : List RawFill) (f : RawFill) (stop : Option StopReason)
        → match_round b t ≡ ok (traded b' t' f stop)
        → I b t fs
        → I b' t' (fs ++ f ∷ []))
    → {b b' : Book} {t t' : Order} {fs : List RawFill} {m : MatchResult}
    → {r : Result (Book × Order × MatchResult)} → Run b t fs r
    → r ≡ ok (b', t', m)
    → I b t fs
    → I b' t' m.fills
run-invariant I step (failed b t fs e _) eq i = cc
run-invariant I step {b' = b2} {t' = t2} {m} (ended b t fs why _) eq i =
    subst (λ (p : Book × Order × MatchResult). I p.0 p.1 p.2.fills) (ok-injective eq) i
run-invariant I step {b' = b2} {t' = t2} {m} (last b b' t t' fs f why e) eq i =
    subst (λ (p : Book × Order × MatchResult). I p.0 p.1 p.2.fills) (ok-injective eq)
      (step b b' t t' fs f (some why) e i)
run-invariant I step (next b b' t t' fs f r e run) eq i =
    run-invariant I step run eq (step b b' t t' fs f none e i)
