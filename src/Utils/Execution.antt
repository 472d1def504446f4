-- ===== src/Utils/Execution.antt =====
-- utils/order.hpp: the books of one fill. The source asserts that the fill is positive and that it
-- does not exceed what the order has left; `executed ≤ leaves_quantity` is met by every caller.
pub mod Accounting
use slick_sim.Prelude.{ℕ, ◌+◌, ◌-◌, ◌*◌, ◌/◌, ◌%◌, ◌^◌, Option, some, ltb, if◌then◌else◌}
use slick_sim.Common.Order.{Order}

-- `cum_value` is an unsigned 128-bit number, `num_fills` a 32-bit one.
unfoldable pub execute_order : (price executed timestamp : ℕ) → Order → Order
execute_order price executed timestamp o =
    let value = (o.cum_value + price * executed) % 2 ^ 128 in
    let cum = o.cum_quantity + executed in
    record o {
      leaves_quantity = o.leaves_quantity - executed;
      last_update_time = timestamp;
      cum_value = value;
      cum_quantity = cum;
      avg_fill_price = if ltb 0 cum then value / cum else 0;
      last_fill_price = price;
      last_fill_qty = executed;
      last_fill_time = some timestamp;
      num_fills = (o.num_fills + 1) % 2 ^ 32;
    }
