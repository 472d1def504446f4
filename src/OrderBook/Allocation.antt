-- ===== src/OrderBook/Allocation.antt =====
-- OrderBook::allocateOrder. What it draws from outside is an argument: the pool's slot, which keeps what
-- is not written here, the uuid, the next order id and the clock.
use slick_sim.Prelude.{ℕ, String}
use slick_sim.Common.Order.{Order, reset_fill_accounting}
use slick_sim.OrderBook.State.{State, write}

pub record Allotment : Type 0 where
  pub slot : Order
  pub uuid : String
  pub id : ℕ
  pub now : ℕ

unfoldable pub allocated : Allotment → Order
allocated a =
    let o = a.slot in
    reset_fill_accounting 0 (record o {
      identity = record (o.identity) { order_id = a.uuid };
      id = a.id;
      request_tag = 0;
      created_time = a.now;
      last_update_time = a.now;
    })

unfoldable pub allocate_order : {B : Type 0} → Allotment → State B → State B
allocate_order a st = write a.id (λ o. allocated a) st
