-- ===== src/OrderBook/State.antt =====
-- The state that one instrument's thread changes: the fields of OrderBook (order_book.hpp), the
-- caches of Symbol (symbol.hpp) that its observer fills, and the response queue and trade counter of
-- MatchingEngine (matching_engine.hpp). A pointer to a pooled order is the order's id.
use slick_sim.Prelude.{
  ℕ, String, Bool, false, not, ◌&&◌, ◌||◌, List, [], ◌∷◌, Option, none, some, eqb, if◌then◌else◌,
  lookup, assign, length, nat_keyed,
}
use slick_sim.Prelude.Int.{ℤ, pos, ◌+ℤ◌, ◌-ℤ◌}
use slick_sim.Common.Order.{Order}
use slick_sim.Common.Messages.{OrderResponse}
use slick_sim.Common.MarketData.{MdUpdateAction, MdLevel, MdOrder}
use slick_sim.OrderBook.L3.{OrderUpdate, PriceLevelUpdate, Event, order_update, level_update}

pub record State (B : Type 0) : Type 0 where
  pub l3 : B
  -- order_buffer_: what each pooled order holds, and the ids given back, the last one first.
  pub pool : ℕ → Order
  pub freed : List ℕ
  -- The keys of orders_, and the two maps from names to orders.
  pub orders : List ℕ
  pub by_client_order_id : List (String × ℕ)
  pub by_order_id : List (String × ℕ)
  pub feed_md_level_quantity : List (ℕ × ℤ)
  pub next_priority : ℕ
  -- md_level_update_cache_ and md_order_update_cache_, the last entry first.
  pub level_cache : List MdLevel
  pub order_cache : List MdOrder
  -- response_queue_: what was published, the last response first, and what the slot that the n-th
  -- response is written into held before.
  pub responses : List OrderResponse
  pub recycled : ℕ → OrderResponse
  pub next_trade_id : ℕ

abbrev pub contains : ℕ → List ℕ → Bool
contains id [] = false
contains id (j ∷ ids) = eqb j id || contains id ids

abbrev pub remove : ℕ → List ℕ → List ℕ
remove id [] = []
remove id (j ∷ ids) = if eqb j id then remove id ids else (j ∷ remove id ids)

-- OrderBook::onOrderUpdate, for liquidity that mirrors the market.
unfoldable pub count_md : OrderUpdate → List (ℕ × ℤ) → List (ℕ × ℤ)
count_md u md =
    let moved : List (ℕ × ℤ) = elim (lookup u.old_price md) [
      | none ↦ md
      | some q ↦ assign u.old_price (q -ℤ pos u.old_qty) md
    ] in
    if not (eqb u.price u.old_price)
    then (elim (lookup u.price moved) [
      | none ↦ if eqb u.quantity 0 then moved else assign u.price (pos u.quantity) moved
      | some q ↦ assign u.price (q +ℤ pos u.quantity) moved
    ])
    else (elim (lookup u.price md) [
      | none ↦ if eqb u.quantity 0 then md else assign u.price (pos u.quantity) md
      | some q ↦ assign u.price (q +ℤ pos u.quantity -ℤ pos u.old_qty) md
    ])

-- Symbol::onOrderUpdate. `isDelete` is a quantity of zero.
unfoldable pub cached_order : OrderUpdate → MdOrder
cached_order u = record {
  order_id = u.order_id;
  event_time = u.timestamp;
  priority = u.priority;
  price = u.price;
  qty = u.quantity;
  side = u.side;
  update_action =
      if eqb u.quantity 0
      then MdUpdateAction.action_delete
      else if eqb u.old_qty 0 && eqb u.old_price 0
      then MdUpdateAction.action_new
      else MdUpdateAction.action_change;
}

-- Symbol::onPriceLevelUpdate
unfoldable pub cached_level : PriceLevelUpdate → MdLevel
cached_level u = record {
  event_time = u.timestamp;
  seq_num = u.seq_num;
  price = u.price;
  qty = u.quantity;
  num_orders = u.num_orders;
  level_index = u.level_index;
  update_action = MdUpdateAction.action_new;
  flags = record { is_snapshot = false; end_event = u.last_in_batch; not_in_book = false };
  side = u.side;
}

module _ {B : Type 0} where
  -- A write through a pointer.
  unfoldable pub write : ℕ → (Order → Order) → State B → State B
  write id f st = record st { pool = λ j. if eqb j id then f (st.pool j) else st.pool j }

  -- findOrder
  unfoldable pub find_order : ℕ → State B → Option ℕ
  find_order id st = if contains id st.orders then some id else none

  unfoldable pub free_order : ℕ → State B → State B
  free_order id st = record st { freed = id ∷ st.freed }

  -- The slot keeps what `fill` does not write.
  unfoldable pub publish : (OrderResponse → OrderResponse) → State B → State B
  publish fill st = record st {
    responses = fill (st.recycled (length st.responses)) ∷ st.responses;
  }

  unfoldable pub book_order_update : OrderUpdate → State B → State B
  book_order_update u st = elim (find_order u.order_id st) [
    | none ↦ record st { feed_md_level_quantity = count_md u st.feed_md_level_quantity }
    | some id ↦
        if eqb u.quantity 0 && not (eqb (st.pool id).quantity u.quantity)
        then write id (λ o. record o { leaves_quantity = 0 }) st
        else st
  ]

  -- The book observes itself first, then its symbol does. The book's own `onPriceLevelUpdate` only
  -- asserts.
  unfoldable pub notify : Event → State B → State B
  notify (order_update u) st =
      let seen = book_order_update u st in
      record seen { order_cache = cached_order u ∷ seen.order_cache }
  notify (level_update u) st = record st { level_cache = cached_level u ∷ st.level_cache }

  unfoldable pub notify_all : List Event → State B → State B
  notify_all [] st = st
  notify_all (e ∷ es) st = notify_all es (notify e st)
