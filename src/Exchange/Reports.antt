-- ===== src/Exchange/Reports.antt =====
-- exchange/exchange.cpp: the reports that the exchange itself publishes. Each is written into a
-- recycled slot of the response queue, and keeps what it does not write.
pub mod Stored
use slick_sim.Prelude.{ℕ, Bool, false, eqb}
use slick_sim.Common.Enums.{ExecType, OrderStatus}
use slick_sim.Common.Reasons.{MessageType, OrdRejectReason}
use slick_sim.Common.Order.{Order, null_price}
use slick_sim.Common.Messages.{
  AddOrderMessage, ModifyOrderMessage, CancelOrderMessage, Request, OrderResponse,
  set_order_identity,
}

unfoldable pub order_new_pending : Order → (request_time : ℕ) → OrderResponse → OrderResponse
order_new_pending o request_time slot = record (set_order_identity slot o) {
  response_type = MessageType.execution_report;
  exec_type = ExecType.new;
  order_status = OrderStatus.pending_new;
  order_type = o.type;
  price = o.price;
  avg_fill_price = o.avg_fill_price;
  qty = o.quantity;
  cum_qty = 0;
  leaves_qty = o.leaves_quantity;
  timestamp = o.created_time;
  request_time = request_time;
  side = o.side;
  post_only = o.post_only;
}

unfoldable pub order_replace_pending : Order → (request_time : ℕ) → OrderResponse → OrderResponse
order_replace_pending o request_time slot = record (set_order_identity slot o) {
  response_type = MessageType.execution_report;
  exec_type = ExecType.pending_replace;
  order_status = OrderStatus.pending_replace;
  order_type = o.type;
  request_time = request_time;
  price = o.price;
  avg_fill_price = o.avg_fill_price;
  qty = o.quantity;
  cum_qty = 0;
  leaves_qty = o.leaves_quantity;
  timestamp = o.created_time;
  side = o.side;
  post_only = o.post_only;
}

-- What sendOrderCancelPending asserts of the order that it reports. A debug build stops where it does not
-- hold; a release build goes on as `order_cancel_pending` does.
unfoldable pub order_cancel_pending_asserts : Order → Bool
order_cancel_pending_asserts o = eqb o.leaves_quantity o.quantity

unfoldable pub order_cancel_pending : Order → (request_time : ℕ) → OrderResponse → OrderResponse
order_cancel_pending o request_time slot = record (set_order_identity slot o) {
  response_type = MessageType.execution_report;
  exec_type = ExecType.pending_cancel;
  order_status = OrderStatus.pending_cancel;
  order_type = o.type;
  request_time = request_time;
  price = o.price;
  avg_fill_price = o.avg_fill_price;
  last_fill_price = o.last_fill_price;
  last_qty = o.last_fill_qty;
  qty = o.quantity;
  cum_qty = 0;
  leaves_qty = o.leaves_quantity;
  timestamp = o.created_time;
  side = o.side;
  post_only = o.post_only;
}

-- What the three rejections share: `now` is the wall clock.
unfoldable pub rejected :
    Request → OrdRejectReason → (now price qty : ℕ) → OrderResponse → OrderResponse
rejected request reason now price qty slot = record slot {
  order_num = 0;
  request_tag = request.request_tag;
  aggressor = false;
  request_time = request.time_stamp;
  response_type = MessageType.reject;
  order_status = OrderStatus.rejected;
  exec_type = ExecType.rejected;
  price = price;
  qty = qty;
  cum_qty = 0;
  leaves_qty = 0;
  reject_reason = reason;
  timestamp = now;
}

unfoldable pub reject_new_order :
    Request → AddOrderMessage → OrdRejectReason → (now : ℕ) → OrderResponse → OrderResponse
reject_new_order request msg reason now slot =
    rejected request reason now msg.price msg.qty (record slot {
      identity = record {
        symbol = request.symbol;
        user_id = msg.user_id;
        client_order_id = msg.client_order_id;
        order_id = "";
      };
    })

unfoldable pub reject_modify_order :
    Request → ModifyOrderMessage → OrdRejectReason → (now : ℕ) → OrderResponse → OrderResponse
reject_modify_order request msg reason now slot =
    rejected request reason now msg.new_price msg.new_qty (record slot {
      identity = record {
        symbol = request.symbol;
        user_id = msg.user_id;
        client_order_id = msg.client_order_id;
        order_id = msg.order_id;
      };
    })

unfoldable pub reject_cancel_order :
    Request → CancelOrderMessage → OrdRejectReason → (now : ℕ) → OrderResponse → OrderResponse
reject_cancel_order request msg reason now slot =
    rejected request reason now null_price 0 (record slot {
      identity = record {
        symbol = request.symbol;
        user_id = msg.user_id;
        client_order_id = msg.client_order_id;
        order_id = msg.order_id;
      };
    })
