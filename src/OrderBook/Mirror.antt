-- ===== src/OrderBook/Mirror.antt =====
-- order_book/order_book.hpp: the orders that mirror the market, which the book holds beside the clients'.
use slick_sim.Prelude.{
  ℕ, ◌+◌, Bool, false, List, [], ◌∷◌, Option, none, some, eqb, ltb, if◌then◌else◌, lookup,
  nat_keyed,
}
use slick_sim.Prelude.Int.{ℤ, pos}
use slick_sim.Common.Enums.{Side}
use slick_sim.OrderBook.L3.{RestingOrder, PriceLevelL3, OrderBookL3}
use slick_sim.OrderBook.State.{State}
use slick_sim.OrderBook.Operations.{settle}

-- getLevel: the level at a price.
unfoldable pub level_at : (price : ℕ) → List PriceLevelL3 → Option PriceLevelL3
level_at price [] = none
level_at price (l ∷ ls) = if eqb l.price price then some l else level_at price ls

unfoldable pub order_in : ℕ → List RestingOrder → Option RestingOrder
order_in id [] = none
order_in id (o ∷ os) = if eqb o.order_id id then some o else order_in id os

abbrev pub or_else : Option RestingOrder → Option RestingOrder → Option RestingOrder
or_else none other = other
or_else (some o) other = some o

unfoldable pub order_on : ℕ → List PriceLevelL3 → Option RestingOrder
order_on id [] = none
order_on id (l ∷ ls) = or_else (order_in id l.orders) (order_on id ls)

abbrev pub or_zero : Option ℤ → ℤ
or_zero none = pos 0
or_zero (some q) = q

-- An order of the simulator's own that is put back into a rebuilt book.
pub record SimOrder : Type 0 where
  pub id : ℕ
  pub side : Side
  pub price : ℕ
  pub qty : ℕ
  pub timestamp : ℕ
  pub priority : ℕ

module _ {B : Type 0} where
  -- getMDLevelQty
  unfoldable pub get_md_level_qty : (price : ℕ) → State B → ℤ
  get_md_level_qty price st = or_zero (lookup price st.feed_md_level_quantity)

  -- The registered orders `ids` that have a quantity left.
  unfoldable pub sim_orders : List ℕ → State B → List SimOrder
  sim_orders [] st = []
  sim_orders (id ∷ ids) st =
      let o = st.pool id in
      let rest = sim_orders ids st in
      if ltb 0 o.leaves_quantity
      then (record {
        id = id;
        side = o.side;
        price = o.price;
        qty = o.leaves_quantity;
        timestamp = o.last_update_time;
        priority = o.priority;
      }
          ∷ rest)
      else rest

module _ {B : Type 0} (lib : OrderBookL3 B) where
  -- OrderBookL3::findOrder, which looks on both sides.
  unfoldable pub find_resting : ℕ → State B → Option RestingOrder
  find_resting id st =
      or_else (order_on id (lib.levels Side.buy st.l3)) (order_on id (lib.levels Side.sell st.l3))

  -- OrderBookL3::addOrder, modifyOrder and deleteOrder by an id.
  unfoldable pub add_l3 :
      (id : ℕ) → Side → (price qty timestamp priority seq_num : ℕ) → Bool → State B → State B
  add_l3 id side price qty timestamp priority seq_num last st =
      settle st (lib.add_order id side price qty timestamp priority seq_num last st.l3)

  unfoldable pub modify_l3 :
      (id price qty timestamp priority seq_num : ℕ) → Bool → State B → State B
  modify_l3 id price qty timestamp priority seq_num last st =
      settle st (lib.modify_order id price qty timestamp priority seq_num last st.l3)

  unfoldable pub delete_l3 : (id timestamp seq_num : ℕ) → Bool → State B → State B
  delete_l3 id timestamp seq_num last st =
      settle st (lib.delete_order id timestamp seq_num last st.l3)

  -- addBookOrder, with the next priority.
  unfoldable pub add_book_order :
      (id : ℕ) → Side → (price qty timestamp seq_num : ℕ) → Bool → State B → State B
  add_book_order id side price qty timestamp seq_num last st =
      add_l3 id side price qty timestamp (st.next_priority + 1) seq_num last
        (record st { next_priority = st.next_priority + 1 })

  unfoldable pub put_back : List SimOrder → State B → State B
  put_back [] st = st
  put_back (o ∷ os) st =
      put_back os (add_l3 o.id o.side o.price o.qty o.timestamp o.priority 0 false st)

  -- clearMDOrders. What the library's `clear` tells the observers is not modelled: the caller publishes a
  -- snapshot in place of updates.
  unfoldable pub clear_md_orders : State B → State B
  clear_md_orders st =
      put_back (sim_orders st.orders st)
        (record st { l3 = lib.clear st.l3; feed_md_level_quantity = [] })
