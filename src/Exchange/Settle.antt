-- ===== src/Exchange/Settle.antt =====
-- Reserves, holds and settlement in trading/exchange/orders.go.
use qiu_market.Prelude.{ℕ, not, ◌||◌, none, some, List, [], ◌∷◌, ◌++◌, if◌then◌else◌, ◌==◌}
use qiu_market.Prelude.Int.{ℤ, pos, ltb_ℤ, leb_ℤ, sub64, neg64, int_eq}
use qiu_market.Prelude.Text.{Text, bytes, zero_padded, text_eq}
use qiu_market.Prelude.Dict.{lookup}
use qiu_market.Prelude.Result.{Result, ok, err, internal, ◌>>=◌, ◌>>◌, reject_if}
use qiu_market.Domain.{
  MarketConfig, Order, Trade, LiquidityRole, buy, sell, market, maker, taker, type_eq, side_eq,
  quote_amount_ceil, fee_amount,
}
use qiu_market.OrderBook.{RawFill}
use qiu_market.Ledger.{Ledger, Entry, post, release, user_held, user_available, platform_fee}
use qiu_market.Exchange.Types.{State}

-- reserveFor
unfoldable pub reserve_for : MarketConfig → Order → Result (Text × ℤ)
reserve_for m o =
    if o.side == sell
    then ok (m.base_asset, o.remaining_quantity)
    else (if o.order_type == market then ok (m.quote_asset, o.remaining_quote_budget) else (do
      amount ← quote_amount_ceil m o.price o.remaining_quantity
      ok (m.quote_asset, amount)))

-- consumeOrderHold
unfoldable pub consume_order_hold : Order → RawFill → Result Order
consume_order_hold o fill = do
  let consumed = if o.side == buy then fill.quote_amount else fill.quantity
  reject_if (ltb_ℤ consumed (pos 0) || ltb_ℤ o.held_amount consumed) internal
  ok (record o { held_amount = sub64 o.held_amount consumed })

-- `fmt.Sprintf("<prefix>%020d<mark>%04d", sequence, fillIndex)`
unfoldable pub fill_id : Text → ℕ → Text → ℕ → Text
fill_id prefix sequence mark fill_index =
    prefix ++ zero_padded 20 sequence ++ mark ++ zero_padded 4 fill_index

-- What a buyer's open remainder has to keep on hold.
unfoldable pub desired_buy_hold : MarketConfig → Order → Result ℤ
desired_buy_hold m o =
    if ltb_ℤ (pos 0) o.remaining_quantity
    then quote_amount_ceil m o.price o.remaining_quantity
    else ok (pos 0)

-- releaseExcessBuyHold
unfoldable pub release_excess_buy_hold :
    MarketConfig → Ledger → ℕ → ℕ → Order → Result (Ledger × Order)
release_excess_buy_hold m l sequence fill_index o = if not (o.side == buy) then ok (l, o) else (do
  desired ← desired_buy_hold m o
  reject_if (ltb_ℤ o.held_amount desired) internal
  let excess = sub64 o.held_amount desired
  if excess == pos 0 then ok (l, o) else (do
    l' ←
        release l (fill_id (bytes "maker-release:") sequence (bytes ":") fill_index)
          (bytes "maker-rounding-release:" ++ o.id) o.account_id m.quote_asset excess
    ok (l', record o { held_amount = desired })))

-- The entries of a settled trade: the four legs, then the fees that are not zero.
unfoldable pub trade_entries : MarketConfig → Text → Text → RawFill → ℤ → ℤ → List Entry
trade_entries m buyer_account seller_account fill buyer_fee seller_fee =
    record {
      account = user_held buyer_account;
      asset = m.quote_asset;
      amount = neg64 fill.quote_amount;
    }
      ∷ record {
        account = user_available seller_account;
        asset = m.quote_asset;
        amount = sub64 fill.quote_amount seller_fee;
      }
      ∷ record {
        account = user_held seller_account;
        asset = m.base_asset;
        amount = neg64 fill.quantity;
      }
      ∷ record {
        account = user_available buyer_account;
        asset = m.base_asset;
        amount = sub64 fill.quantity buyer_fee;
      }
      ∷ (if ltb_ℤ (pos 0) seller_fee
          then record {
            account = platform_fee m.quote_asset;
            asset = m.quote_asset;
            amount = seller_fee;
          }
            ∷ []
          else [])
    ++ (if ltb_ℤ (pos 0) buyer_fee
        then record {
          account = platform_fee m.base_asset;
          asset = m.base_asset;
          amount = buyer_fee;
        }
          ∷ []
        else [])

-- Who buys in a fill and at which fee rates: the maker's side decides.
pub record Roles : Type 0 where
  pub buyer : Order
  pub seller : Order
  pub buyer_role : LiquidityRole
  pub seller_role : LiquidityRole
  pub buyer_rate : ℤ
  pub seller_rate : ℤ

unfoldable pub roles_of : MarketConfig → Order → Order → Roles
roles_of m maker_order taker_order =
    if maker_order.side == buy
    then record {
      buyer = maker_order;
      seller = taker_order;
      buyer_role = maker;
      seller_role = taker;
      buyer_rate = m.maker_fee_bps;
      seller_rate = m.taker_fee_bps;
    }
    else record {
      buyer = taker_order;
      seller = maker_order;
      buyer_role = taker;
      seller_role = maker;
      buyer_rate = m.taker_fee_bps;
      seller_rate = m.maker_fee_bps;
    }

-- settleFill
unfoldable pub settle_fill : State → ℕ → ℕ → Order → RawFill → Result (Ledger × Trade)
settle_fill s sequence fill_index taker_order fill = elim (lookup fill.maker_order_id s.orders) [
  | none ↦ err internal
  | some maker_order ↦ do
    let m = s.market
    let r = roles_of m maker_order taker_order
    buyer_fee ← fee_amount fill.quantity r.buyer_rate
    seller_fee ← fee_amount fill.quote_amount r.seller_rate
    reject_if
        (leb_ℤ (sub64 fill.quantity buyer_fee) (pos 0)
          || leb_ℤ (sub64 fill.quote_amount seller_fee) (pos 0))
        internal
    let trade_id = fill_id (bytes "T-") sequence (bytes "-") fill_index
    l ← post s.ledger (record {
      id = bytes "trade:" ++ trade_id;
      reference = bytes "matched-trade:" ++ trade_id;
      entries = trade_entries m r.buyer.account_id r.seller.account_id fill buyer_fee seller_fee;
    })
    ok (
      l,
      record {
        id = trade_id;
        market_id = m.id;
        price = fill.price;
        quantity = fill.quantity;
        quote_amount = fill.quote_amount;
        maker_order_id = maker_order.id;
        taker_order_id = taker_order.id;
        maker_account_id = maker_order.account_id;
        taker_account_id = taker_order.account_id;
        buyer_account_id = r.buyer.account_id;
        seller_account_id = r.seller.account_id;
        buyer_fee = record {
          account_id = r.buyer.account_id;
          asset = m.base_asset;
          amount = buyer_fee;
          rate_bps = r.buyer_rate;
          role = r.buyer_role;
        };
        seller_fee = record {
          account_id = r.seller.account_id;
          asset = m.quote_asset;
          amount = seller_fee;
          rate_bps = r.seller_rate;
          role = r.seller_role;
        };
      },
    )
]
