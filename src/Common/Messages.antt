-- ===== src/Common/Messages.antt =====
-- common/messages.hpp: requests, responses and trade summaries. A request's union is a data type.
use slick_sim.Prelude.{ℕ, String, Bool, false, List}
use slick_sim.Common.Enums.{Side, OrderType, ExecType, OrderStatus, TimeInForce}
use slick_sim.Common.Reasons.{MessageType, OrdRejectReason}
use slick_sim.Common.Order.{OrderIdentity, Order}

pub record AddOrderMessage : Type 0 where
  pub user_id : String
  pub client_order_id : String
  pub side : Side
  pub type : OrderType
  pub time_in_force : TimeInForce
  pub price : ℕ
  pub qty : ℕ

pub record ModifyOrderMessage : Type 0 where
  pub user_id : String
  pub order_id : String
  pub client_order_id : String
  pub new_price : ℕ
  pub new_qty : ℕ

pub record CancelOrderMessage : Type 0 where
  pub user_id : String
  pub order_id : String
  pub client_order_id : String

pub data RequestBody : Type 0 where
  add_order : AddOrderMessage → RequestBody
  modify_order : ModifyOrderMessage → RequestBody
  cancel_order : CancelOrderMessage → RequestBody
  md_subscription : (channel : ℕ) → RequestBody
  md_unsubscription : (channel : ℕ) → RequestBody

pub record Request : Type 0 where
  pub time_stamp : ℕ
  pub symbol : String
  pub request_tag : ℕ
  pub body : RequestBody

pub record OrderResponse : Type 0 where
  pub identity : OrderIdentity
  pub open identity use *
  pub error_message : String
  pub response_type : MessageType
  pub exec_type : ExecType
  pub order_status : OrderStatus
  pub order_type : OrderType
  pub time_in_force : TimeInForce
  pub price : ℕ
  pub last_fill_price : ℕ
  pub avg_fill_price : ℕ
  pub qty : ℕ
  pub last_qty : ℕ
  pub cum_qty : ℕ
  pub leaves_qty : ℕ
  pub reject_reason : OrdRejectReason
  pub creation_time : ℕ
  pub request_time : ℕ
  pub timestamp : ℕ
  pub side : Side
  pub post_only : Bool
  pub order_num : ℕ
  pub request_tag : ℕ
  pub aggressor : Bool

-- The first argument is the recycled queue slot, which keeps what is not written here.
unfoldable pub set_order_identity : OrderResponse → Order → OrderResponse
set_order_identity r o = record r {
  identity = o.identity;
  order_num = o.id;
  request_tag = o.request_tag;
  aggressor = false;
}

pub record Trade : Type 0 where
  pub order_id : ℕ
  pub qty : ℕ

pub record TradeSummaryInfo : Type 0 where
  pub timestamp : ℕ
  pub trade_id : ℕ
  pub aggressor_side : Side
  pub price : ℕ
  pub qty : ℕ
  pub phantom_qty : ℕ
  pub num_orders : ℕ
  pub trades : List Trade
