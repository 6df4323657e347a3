-- ===== src/Exchange/Commands.antt =====
-- apply, applyFund and applyCancel of trading/exchange, and the identity check of a command.
use qiu_market.Prelude.{
  ℕ, Bool, true, false, not, ◌||◌, Option, none, some, [], ◌∷◌, ◌++◌, if◌then◌else◌, ◌==◌,
}
use qiu_market.Prelude.Int.{pos, leb_ℤ}
use qiu_market.Prelude.Text.{Text, bytes, text_eq, is_empty}
use qiu_market.Prelude.Dict.{lookup, insert}
use qiu_market.Prelude.Result.{Result, ok, err, internal, ◌>>=◌, ◌>>◌, reject_if}
use qiu_market.Domain.{
  Order, Event, Outcome, Command, fund, submit_order, cancel_order, unknown_kind, kind_eq, buy,
  side_eq, canceled, no_status, account_funded, order_canceled, is_open, validate_fund,
  validate_cancel, validate_key,
}
use qiu_market.OrderBook.{cancel}
use qiu_market.Ledger.{fund_virtual, release}
use qiu_market.Exchange.Types.{State, blank_event, sequence_id, cancel_rejected_outcome}
use qiu_market.Exchange.Submit.{apply_submit}

-- applyFund
unfoldable pub apply_fund : State → Command → Result (State × Outcome)
apply_fund s c = elim c.fund_request [
  | none ↦ err internal
  | some r ↦ do
    validate_fund r s.market
    l ←
        fund_virtual s.ledger (sequence_id (bytes "fund:") c.sequence)
          (bytes "virtual-funding:" ++ r.request_id) r.account_id r.asset r.amount
    let event : Event = record (blank_event c.sequence 1 account_funded) {
      account_id = r.account_id;
      asset = r.asset;
      amount = r.amount;
    }
    ok (
      record s { ledger = l },
      record { sequence = c.sequence; order_id = []; status = no_status; events = event ∷ [] },
    )
]

-- The event EventOrderCanceled of a cancel command.
unfoldable pub canceled_event : ℕ → Order → Event
canceled_event sequence o = record (blank_event sequence 1 order_canceled) {
  account_id = o.account_id;
  order_id = o.id;
  client_order_id = o.client_order_id;
  status = o.status;
  side = o.side;
  price = o.price;
  quantity = o.filled_quantity;
  remaining = o.remaining_quantity;
  quote_amount = o.spent_quote;
  reason = bytes "user_requested";
}

-- The part of applyCancel behind its three rejections.
unfoldable pub cancel_open_order : State → ℕ → Order → Result (State × Outcome)
cancel_open_order s sequence o = do
  removed ← cancel s.book o.id
  let asset = if o.side == buy then s.market.quote_asset else s.market.base_asset
  reject_if (leb_ℤ o.held_amount (pos 0) || not (o.held_asset == asset)) internal
  l ←
      release s.ledger (sequence_id (bytes "cancel-release:") sequence)
        (bytes "order-cancel:" ++ o.id) o.account_id asset o.held_amount
  let o' : Order = record o {
    status = canceled;
    last_sequence = sequence;
    held_asset = [];
    held_amount = pos 0;
  }
  ok (
    record s { book = removed.0; ledger = l; orders = insert o'.id o' s.orders },
    record {
      sequence = sequence;
      order_id = o'.id;
      status = o'.status;
      events = canceled_event sequence o' ∷ [];
    },
  )

-- applyCancel
unfoldable pub apply_cancel : State → Command → Result (State × Outcome)
apply_cancel s c = elim c.cancel_request [
  | none ↦ err internal
  | some r ↦ do
    validate_cancel r
    elim (lookup r.order_id s.orders) [
      | none ↦ ok (s, cancel_rejected_outcome c.sequence r (bytes "order not found"))
      | some o ↦
          if not (o.account_id == r.account_id)
          then ok
              (s, cancel_rejected_outcome c.sequence r (bytes "order belongs to another account"))
          else (if not (is_open o)
              then ok (s, cancel_rejected_outcome c.sequence r (bytes "order is not open"))
              else cancel_open_order s c.sequence o)
    ]
]

-- apply
unfoldable pub apply : State → Command → Result (State × Outcome)
apply s c = elim c.kind [
  | fund ↦ apply_fund s c
  | submit_order ↦ apply_submit s c
  | cancel_order ↦ apply_cancel s c
  | unknown_kind ↦ err internal
]

abbrev pub is_none {ℓ} : {A : Type ℓ} → Option A → Bool
is_none none = true
is_none (some a) = false

-- The account of the one payload that fits the command's kind.
unfoldable pub payload_account : Command → Result Text
payload_account c = elim c.kind [
  | fund ↦ elim c.fund_request [
    | none ↦ err internal
    | some r ↦ do
      reject_if
          (not (is_none c.submit_request)
            || not (is_none c.cancel_request)
            || not (r.request_id == c.request_id))
          internal
      ok r.account_id
  ]
  | submit_order ↦ elim c.submit_request [
    | none ↦ err internal
    | some r ↦ do
      reject_if
          (not (is_none c.fund_request)
            || not (is_none c.cancel_request)
            || not (r.client_order_id == c.request_id))
          internal
      ok r.account_id
  ]
  | cancel_order ↦ elim c.cancel_request [
    | none ↦ err internal
    | some r ↦ do
      reject_if
          (not (is_none c.fund_request)
            || not (is_none c.submit_request)
            || not (r.request_id == c.request_id))
          internal
      ok r.account_id
  ]
  | unknown_kind ↦ err internal
]

-- validateCommandIdentity
unfoldable pub validate_command_identity : Command → Result (Unit {0})
validate_command_identity c = do
  validate_key c.request_key
  reject_if
      (is_empty c.request_id
        || not (c.request_key.request_id == c.request_id)
        || not (c.request_key.operation == c.kind))
      internal
  account_id ← payload_account c
  reject_if (not (account_id == c.request_key.account_id)) internal
  ok tt
