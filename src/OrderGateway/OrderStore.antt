-- ===== src/OrderGateway/OrderStore.antt =====
-- order_gateway/order_store.hpp: the orders that one gateway rebuilds from the reports. The double
-- `filled_value` is left out.
pub mod Projection
use slick_sim.Prelude.{
  ℕ, ◌+◌, ◌%◌, ◌^◌, String, Bool, false, List, [], ◌∷◌, ◌++◌, Option, none, some, eqb, length,
  reverse, if◌then◌else◌, ◌==◌, string_keyed, lookup, assign,
}
use slick_sim.Common.Enums.{
  Side, OrderType, ExecType, exec_type_code, OrderStatus, status_is, TimeInForce, ProductType,
}
use slick_sim.Common.Order.{Order}
use slick_sim.Common.Messages.{OrderResponse}

pub record OrderStore : Type 0 where
  pub by_order_id : List (String × Order)
  pub ids_by_user : List (String × List String)

abbrev pub no_orders : OrderStore
no_orders = record { by_order_id = []; ids_by_user = [] }

-- A new entry: the default order, with what the first report fixes.
unfoldable pub first_sight : OrderResponse → Order
first_sight r = record {
  identity = r.identity;
  id = 0;
  priority = 0;
  request_tag = 0;
  side = Side.buy;
  type = OrderType.market;
  status = OrderStatus.new;
  time_in_force = TimeInForce.day;
  product_type = ProductType.spot;
  post_only = false;
  pending_cancel = false;
  price = 0;
  quantity = 0;
  leaves_quantity = 0;
  avg_fill_price = 0;
  cum_quantity = 0;
  cum_value = 0;
  last_fill_price = 0;
  last_fill_qty = 0;
  num_fills = 0;
  client_id = none;
  created_time = r.creation_time;
  last_update_time = 0;
  last_fill_time = none;
  reject_message = "";
  cancel_message = "";
}

unfoldable pub copy_report : OrderResponse → Order → Order
copy_report r o = record o {
  side = r.side;
  type = r.order_type;
  time_in_force = r.time_in_force;
  status = r.order_status;
  post_only = r.post_only;
  price = r.price;
  quantity = r.qty;
  leaves_quantity = r.leaves_qty;
  cum_quantity = r.cum_qty;
  avg_fill_price = r.avg_fill_price;
  last_update_time = r.timestamp;
  pending_cancel = status_is r.order_status OrderStatus.pending_cancel;
}

unfoldable pub is_trade : OrderResponse → Bool
is_trade r = eqb (exec_type_code r.exec_type) (exec_type_code ExecType.trade)

unfoldable pub copy_fill : OrderResponse → Order → Order
copy_fill r o =
    if is_trade r
    then record o {
      last_fill_price = r.last_fill_price;
      last_fill_qty = r.last_qty;
      last_fill_time = some r.timestamp;
      num_fills = (o.num_fills + 1) % 2 ^ 32;
    }
    else o

unfoldable pub copy_message : OrderResponse → Order → Order
copy_message r o =
    if status_is r.order_status OrderStatus.rejected
    then record o { reject_message = r.error_message }
    else if status_is r.order_status OrderStatus.canceled
    then record o { cancel_message = r.error_message }
    else o

unfoldable pub fold_report : OrderResponse → Order → Order
fold_report r o = copy_message r (copy_fill r (copy_report r o))

unfoldable pub ids_of : String → OrderStore → List String
ids_of user_id st = elim (lookup user_id st.ids_by_user) [ none ↦ [] | some ids ↦ ids ]

unfoldable pub apply_at : OrderResponse → Option Order → OrderStore → OrderStore
apply_at r none st = record {
  by_order_id = assign r.order_id (fold_report r (first_sight r)) st.by_order_id;
  ids_by_user = assign r.user_id (ids_of r.user_id st ++ (r.order_id ∷ [])) st.ids_by_user;
}
apply_at r (some o) st = record st {
  by_order_id = assign r.order_id (fold_report r o) st.by_order_id;
}

-- apply
unfoldable pub apply : OrderResponse → OrderStore → OrderStore
apply r st = if r.order_id == "" then st else apply_at r (lookup r.order_id st.by_order_id) st

-- drain, for the reports that it reads.
unfoldable pub drain : List OrderResponse → OrderStore → OrderStore
drain [] st = st
drain (r ∷ rs) st = drain rs (apply r st)

unfoldable pub find : String → OrderStore → Option Order
find order_id st = lookup order_id st.by_order_id

unfoldable pub resolve : List String → OrderStore → List Order
resolve [] st = []
resolve (id ∷ ids) st = elim (find id st) [ none ↦ resolve ids st | some o ↦ o ∷ resolve ids st ]

-- Newest first.
unfoldable pub orders_of : String → OrderStore → List Order
orders_of user_id st = resolve (reverse (ids_of user_id st)) st

unfoldable pub size : OrderStore → ℕ
size st = length st.by_order_id
