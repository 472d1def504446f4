-- ===== src/MatchingEngine/Publish.antt =====
-- matching_engine/matching_engine.cpp: the execution reports. Each is written into a recycled slot of
-- the response queue.
use slick_sim.Prelude.{ℕ, Bool, eqb, if◌then◌else◌}
use slick_sim.Common.Enums.{ExecType, OrderStatus}
use slick_sim.Common.Reasons.{MessageType}
use slick_sim.Common.Order.{Order}
use slick_sim.Common.Messages.{OrderResponse, set_order_identity}
use slick_sim.OrderBook.State.{State, publish}

unfoldable pub order_ack : Order → (request_time : ℕ) → OrderResponse → OrderResponse
order_ack o request_time slot = record (set_order_identity slot o) {
  response_type = MessageType.execution_report;
  exec_type = ExecType.new;
  order_status = OrderStatus.new;
  order_type = o.type;
  time_in_force = o.time_in_force;
  price = o.price;
  last_fill_price = o.last_fill_price;
  avg_fill_price = o.avg_fill_price;
  qty = o.quantity;
  cum_qty = 0;
  leaves_qty = o.leaves_quantity;
  creation_time = o.created_time;
  timestamp = o.last_update_time;
  request_time = request_time;
  side = o.side;
  post_only = o.post_only;
}

unfoldable pub order_execution : Order → (aggressor : Bool) → OrderResponse → OrderResponse
order_execution o aggressor slot = record (set_order_identity slot o) {
  aggressor = aggressor;
  response_type = MessageType.execution_report;
  exec_type = ExecType.trade;
  order_status =
      if eqb o.leaves_quantity 0 then OrderStatus.filled else OrderStatus.partially_filled;
  order_type = o.type;
  time_in_force = o.time_in_force;
  price = o.price;
  last_fill_price = o.last_fill_price;
  avg_fill_price = o.avg_fill_price;
  qty = o.quantity;
  last_qty = o.last_fill_qty;
  cum_qty = o.cum_quantity;
  leaves_qty = o.leaves_quantity;
  creation_time = o.created_time;
  timestamp = o.last_update_time;
  side = o.side;
  post_only = o.post_only;
}

unfoldable pub order_modify :
    Order → (new_price new_qty request_time : ℕ) → OrderResponse → OrderResponse
order_modify o new_price new_qty request_time slot = record (set_order_identity slot o) {
  response_type = MessageType.execution_report;
  exec_type = ExecType.replaced;
  order_status = OrderStatus.replaced;
  order_type = o.type;
  time_in_force = o.time_in_force;
  price = new_price;
  qty = new_qty;
  last_qty = o.last_fill_qty;
  cum_qty = o.cum_quantity;
  leaves_qty = o.leaves_quantity;
  creation_time = o.created_time;
  timestamp = o.last_update_time;
  request_time = request_time;
  side = o.side;
  post_only = o.post_only;
}

unfoldable pub order_cancel : Order → (request_time : ℕ) → OrderResponse → OrderResponse
order_cancel o request_time slot = record (set_order_identity slot o) {
  response_type = MessageType.execution_report;
  exec_type = ExecType.canceled;
  order_status = OrderStatus.canceled;
  order_type = o.type;
  time_in_force = o.time_in_force;
  price = o.price;
  last_fill_price = o.last_fill_price;
  avg_fill_price = o.avg_fill_price;
  qty = o.quantity;
  last_qty = o.last_fill_qty;
  cum_qty = o.cum_quantity;
  leaves_qty = 0;
  creation_time = o.created_time;
  timestamp = o.last_update_time;
  request_time = request_time;
  side = o.side;
  post_only = o.post_only;
}

module _ {B : Type 0} where
  unfoldable pub publish_order_ack : (id request_time : ℕ) → State B → State B
  publish_order_ack id request_time st = publish (order_ack (st.pool id) request_time) st

  unfoldable pub publish_order_execution : (id : ℕ) → Bool → State B → State B
  publish_order_execution id aggressor st = publish (order_execution (st.pool id) aggressor) st

  unfoldable pub publish_order_modify : (id new_price new_qty request_time : ℕ) → State B → State B
  publish_order_modify id new_price new_qty request_time st =
      publish (order_modify (st.pool id) new_price new_qty request_time) st

  unfoldable pub publish_order_cancel : (id request_time : ℕ) → State B → State B
  publish_order_cancel id request_time st = publish (order_cancel (st.pool id) request_time) st
