-- ===== src/Domain/Types.antt =====
-- The data types of trading/domain/types.go. An enumeration of uint8 has one more constructor for
-- the codes that the source gives no name (zero among them); identifiers are strings.
use qiu_market.Prelude.{ℕ, ◌≡◌, ◌↔◌, Bool, true, false, Option, List, arith, Eq}
use qiu_market.Prelude.Int.{ℤ}
use qiu_market.Prelude.Text.{Text}

pub data Side : Type 0 where
  buy sell unknown_side : Side

pub data OrderType : Type 0 where
  limit market unknown_type : OrderType

pub data TimeInForce : Type 0 where
  gtc ioc fok unknown_force : TimeInForce

pub data OrderStatus : Type 0 where
  received rejected open_status partially_filled filled canceled no_status : OrderStatus

pub data LiquidityRole : Type 0 where
  maker taker unknown_role : LiquidityRole

pub data CommandKind : Type 0 where
  fund submit_order cancel_order unknown_kind : CommandKind

pub data EventType : Type 0 where
  account_funded order_accepted order_rejected trade_executed order_rested : EventType
  order_filled order_canceled cancel_rejected self_trade_prevented : EventType

abbrev pub side_beq : Side → Side → Bool
side_beq buy buy = true
side_beq sell sell = true
side_beq unknown_side unknown_side = true
side_beq _ _ = false

pub side_beq_iff : (a b : Side) → (side_beq a b ≡ true) ↔ (a ≡ b)
side_beq_iff a b = ground arith

instance abbrev pub side_eq : Eq Side
side_eq = record { beq = side_beq; beq_iff = side_beq_iff }

abbrev pub type_beq : OrderType → OrderType → Bool
type_beq limit limit = true
type_beq market market = true
type_beq unknown_type unknown_type = true
type_beq _ _ = false

pub type_beq_iff : (a b : OrderType) → (type_beq a b ≡ true) ↔ (a ≡ b)
type_beq_iff a b = ground arith

instance abbrev pub type_eq : Eq OrderType
type_eq = record { beq = type_beq; beq_iff = type_beq_iff }

abbrev pub force_beq : TimeInForce → TimeInForce → Bool
force_beq gtc gtc = true
force_beq ioc ioc = true
force_beq fok fok = true
force_beq unknown_force unknown_force = true
force_beq _ _ = false

pub force_beq_iff : (a b : TimeInForce) → (force_beq a b ≡ true) ↔ (a ≡ b)
force_beq_iff a b = ground arith

instance abbrev pub force_eq : Eq TimeInForce
force_eq = record { beq = force_beq; beq_iff = force_beq_iff }

abbrev pub status_beq : OrderStatus → OrderStatus → Bool
status_beq received received = true
status_beq rejected rejected = true
status_beq open_status open_status = true
status_beq partially_filled partially_filled = true
status_beq filled filled = true
status_beq canceled canceled = true
status_beq no_status no_status = true
status_beq _ _ = false

pub status_beq_iff : (a b : OrderStatus) → (status_beq a b ≡ true) ↔ (a ≡ b)
status_beq_iff a b = ground arith

instance abbrev pub status_eq : Eq OrderStatus
status_eq = record { beq = status_beq; beq_iff = status_beq_iff }

abbrev pub kind_beq : CommandKind → CommandKind → Bool
kind_beq fund fund = true
kind_beq submit_order submit_order = true
kind_beq cancel_order cancel_order = true
kind_beq unknown_kind unknown_kind = true
kind_beq _ _ = false

pub kind_beq_iff : (a b : CommandKind) → (kind_beq a b ≡ true) ↔ (a ≡ b)
kind_beq_iff a b = ground arith

instance abbrev pub kind_eq : Eq CommandKind
kind_eq = record { beq = kind_beq; beq_iff = kind_beq_iff }

-- Market
pub record MarketConfig : Type 0 where
  pub id : Text
  pub base_asset : Text
  pub quote_asset : Text
  pub base_scale : ℤ
  pub quote_scale : ℤ
  pub price_tick : ℤ
  pub quantity_step : ℤ
  pub min_quantity : ℤ
  pub min_notional : ℤ
  pub maker_fee_bps : ℤ
  pub taker_fee_bps : ℤ
  pub configuration_epoch : ℕ

pub record FundRequest : Type 0 where
  pub request_id : Text
  pub account_id : Text
  pub asset : Text
  pub amount : ℤ

pub record NewOrder : Type 0 where
  pub client_order_id : Text
  pub account_id : Text
  pub side : Side
  pub order_type : OrderType
  pub time_in_force : TimeInForce
  pub price : ℤ
  pub quantity : ℤ
  pub quote_budget : ℤ
  pub post_only : Bool

pub record CancelOrder : Type 0 where
  pub request_id : Text
  pub account_id : Text
  pub order_id : Text

pub record Order : Type 0 where
  pub id : Text
  pub client_order_id : Text
  pub account_id : Text
  pub market_id : Text
  pub side : Side
  pub order_type : OrderType
  pub time_in_force : TimeInForce
  pub post_only : Bool
  pub price : ℤ
  pub original_quantity : ℤ
  pub remaining_quantity : ℤ
  pub filled_quantity : ℤ
  pub original_quote_budget : ℤ
  pub remaining_quote_budget : ℤ
  pub spent_quote : ℤ
  pub held_asset : Text
  pub held_amount : ℤ
  pub status : OrderStatus
  pub accepted_sequence : ℕ
  pub last_sequence : ℕ
  pub reject_reason : Text

pub record Fee : Type 0 where
  pub account_id : Text
  pub asset : Text
  pub amount : ℤ
  pub rate_bps : ℤ
  pub role : LiquidityRole

pub record Trade : Type 0 where
  pub id : Text
  pub market_id : Text
  pub price : ℤ
  pub quantity : ℤ
  pub quote_amount : ℤ
  pub maker_order_id : Text
  pub taker_order_id : Text
  pub maker_account_id : Text
  pub taker_account_id : Text
  pub buyer_account_id : Text
  pub seller_account_id : Text
  pub buyer_fee : Fee
  pub seller_fee : Fee

pub record Event : Type 0 where
  pub sequence : ℕ
  pub index : ℕ
  pub event_type : EventType
  pub account_id : Text
  pub order_id : Text
  pub client_order_id : Text
  pub status : OrderStatus
  pub side : Side
  pub price : ℤ
  pub quantity : ℤ
  pub remaining : ℤ
  pub remaining_quote_budget : Option ℤ
  pub quote_amount : ℤ
  pub asset : Text
  pub amount : ℤ
  pub reason : Text
  pub trade : Option Trade

-- domain.Result
pub record Outcome : Type 0 where
  pub sequence : ℕ
  pub order_id : Text
  pub status : OrderStatus
  pub events : List Event

pub record IdempotencyKey : Type 0 where
  pub market_id : Text
  pub account_id : Text
  pub operation : CommandKind
  pub request_id : Text

pub record Command : Type 0 where
  pub sequence : ℕ
  pub request_id : Text
  pub request_key : IdempotencyKey
  pub fingerprint : Text
  pub kind : CommandKind
  pub fund_request : Option FundRequest
  pub submit_request : Option NewOrder
  pub cancel_request : Option CancelOrder

-- Order.IsOpen
unfoldable pub is_open : Order → Bool
is_open o = elim o.status [ open_status ↦ true | partially_filled ↦ true | _ ↦ false ]
