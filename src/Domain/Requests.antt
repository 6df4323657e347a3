-- ===== src/Domain/Requests.antt =====
-- The requests of trading/domain/types.go: their validation and idempotency keys.
use qiu_market.Prelude.{◌≡◌, ◌↔◌, Bool, true, not, ◌&&◌, ◌||◌, ◌==◌, Eq, arith}
use qiu_market.Prelude.Int.{pos, ltb_ℤ, leb_ℤ, rem64, int_eq}
use qiu_market.Prelude.Text.{Text, text_eq, text_beq_iff, is_empty}
use qiu_market.Prelude.Result.{
  Result, ok, err, invalid_order, invalid_request, ◌>>=◌, ◌>>◌, reject_if, relabel,
}
use qiu_market.Domain.Types.{
  MarketConfig, FundRequest, NewOrder, CancelOrder, IdempotencyKey, CommandKind, buy, sell,
  unknown_side, limit, market, unknown_type, gtc, ioc, fok, fund, submit_order, cancel_order,
  side_eq, type_eq, force_eq, kind_eq, kind_beq_iff,
}
use qiu_market.Domain.Market.{quote_amount_floor}

-- FundRequest.Validate
unfoldable pub validate_fund : FundRequest → MarketConfig → Result (Unit {0})
validate_fund r m = do
  reject_if (is_empty r.request_id || is_empty r.account_id || leb_ℤ r.amount (pos 0))
      invalid_request
  reject_if (not (r.asset == m.base_asset) && not (r.asset == m.quote_asset)) invalid_request
  ok tt

-- The case OrderTypeLimit of NewOrder.Validate.
unfoldable pub validate_limit : NewOrder → MarketConfig → Result (Unit {0})
validate_limit o m = do
  reject_if (leb_ℤ o.price (pos 0) || not (rem64 o.price m.price_tick == pos 0)) invalid_order
  reject_if (ltb_ℤ o.quantity m.min_quantity || not (rem64 o.quantity m.quantity_step == pos 0))
      invalid_order
  reject_if (not (o.quote_budget == pos 0)) invalid_order
  reject_if
      (not (o.time_in_force == gtc) && not (o.time_in_force == ioc) && not (o.time_in_force == fok))
      invalid_order
  reject_if (o.post_only && not (o.time_in_force == gtc)) invalid_order
  step_notional ← relabel invalid_order (quote_amount_floor m o.price m.quantity_step)
  reject_if (leb_ℤ step_notional (pos 0)) invalid_order
  notional ← relabel invalid_order (quote_amount_floor m o.price o.quantity)
  reject_if (ltb_ℤ notional m.min_notional) invalid_order
  ok tt

-- The case OrderTypeMarket of NewOrder.Validate.
unfoldable pub validate_market_order : NewOrder → MarketConfig → Result (Unit {0})
validate_market_order o m = do
  reject_if (not (o.price == pos 0) || o.post_only || not (o.time_in_force == ioc)) invalid_order
  elim o.side [
    | buy ↦
        reject_if (ltb_ℤ o.quote_budget m.min_notional || not (o.quantity == pos 0)) invalid_order
    | sell ↦
        reject_if
          (ltb_ℤ o.quantity m.min_quantity
            || not (rem64 o.quantity m.quantity_step == pos 0)
            || not (o.quote_budget == pos 0))
          invalid_order
    | unknown_side ↦ ok tt
  ]

-- NewOrder.Validate
unfoldable pub validate_order : NewOrder → MarketConfig → Result (Unit {0})
validate_order o m = do
  reject_if (is_empty o.client_order_id || is_empty o.account_id) invalid_order
  reject_if (not (o.side == buy) && not (o.side == sell)) invalid_order
  elim o.order_type [
    | limit ↦ validate_limit o m
    | market ↦ validate_market_order o m
    | unknown_type ↦ err invalid_order
  ]

-- CancelOrder.Validate
unfoldable pub validate_cancel : CancelOrder → Result (Unit {0})
validate_cancel o =
    reject_if (is_empty o.request_id || is_empty o.account_id || is_empty o.order_id)
      invalid_request

-- NewIdempotencyKey
unfoldable pub new_idempotency_key : Text → Text → CommandKind → Text → IdempotencyKey
new_idempotency_key market_id account_id operation request_id = record {
  market_id = market_id;
  account_id = account_id;
  operation = operation;
  request_id = request_id;
}

-- IdempotencyKey.Validate
unfoldable pub validate_key : IdempotencyKey → Result (Unit {0})
validate_key k =
    reject_if
      (is_empty k.market_id
        || is_empty k.account_id
        || is_empty k.request_id
        || (not (k.operation == fund)
            && not (k.operation == submit_order)
            && not (k.operation == cancel_order)))
      invalid_request

abbrev pub key_beq : IdempotencyKey → IdempotencyKey → Bool
key_beq a b =
    a.market_id == b.market_id
    && a.account_id == b.account_id
    && a.operation == b.operation
    && a.request_id == b.request_id

pub key_beq_iff : (a b : IdempotencyKey) → (key_beq a b ≡ true) ↔ (a ≡ b)
key_beq_iff a b = ground (
  arith,
  text_beq_iff a.market_id b.market_id,
  text_beq_iff a.account_id b.account_id,
  kind_beq_iff a.operation b.operation,
  text_beq_iff a.request_id b.request_id,
)

instance abbrev pub key_eq : Eq IdempotencyKey
key_eq = record { beq = key_beq; beq_iff = key_beq_iff }
