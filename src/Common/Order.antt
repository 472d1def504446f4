-- ===== src/Common/Order.antt =====
-- common/order.hpp: an order, and what its fields say about resting. Prices and quantities are
-- fixed-point integers that are not negative; the `double` fields are left out.
use slick_sim.Prelude.{ℕ, ◌-◌, ◌^◌, String, Bool, Option, none, eqb, ◌&&◌, ◌||◌, not}
use slick_sim.Common.Enums.{Side, OrderType, OrderStatus, TimeInForce, ProductType, tif_is}

-- std::numeric_limits<price_t>::max(): the price of a market order.
abbrev pub null_price : ℕ
null_price = 2 ^ 63 - 1

pub record OrderIdentity : Type 0 where
  pub symbol : String
  pub user_id : String
  pub client_order_id : String
  pub order_id : String

pub record Order : Type 0 where
  pub identity : OrderIdentity
  pub open identity use *
  pub id : ℕ
  pub priority : ℕ
  pub request_tag : ℕ
  pub side : Side
  pub type : OrderType
  pub status : OrderStatus
  pub time_in_force : TimeInForce
  pub product_type : ProductType
  pub post_only : Bool
  pub pending_cancel : Bool
  pub price : ℕ
  pub quantity : ℕ
  pub leaves_quantity : ℕ
  pub avg_fill_price : ℕ
  pub cum_quantity : ℕ
  pub cum_value : ℕ
  pub last_fill_price : ℕ
  pub last_fill_qty : ℕ
  pub num_fills : ℕ
  -- -1, no client, is `none`.
  pub client_id : Option ℕ
  pub created_time : ℕ
  pub last_update_time : ℕ
  pub last_fill_time : Option ℕ
  pub reject_message : String
  pub cancel_message : String

unfoldable pub reset_fill_accounting : ℕ → Order → Order
reset_fill_accounting new_qty o = record o {
  quantity = new_qty;
  leaves_quantity = new_qty;
  avg_fill_price = 0;
  cum_quantity = 0;
  cum_value = 0;
  last_fill_price = 0;
  last_fill_qty = 0;
  num_fills = 0;
  last_fill_time = none;
}

-- Whether what matching leaves of an order rests on the book. A market order has no price to rest at.
unfoldable pub rests_remainder : Order → Bool
rests_remainder o =
    not (eqb o.price null_price)
    && (tif_is o.time_in_force TimeInForce.day
        || tif_is o.time_in_force TimeInForce.good_till_cancel
        || tif_is o.time_in_force TimeInForce.good_till_date)
