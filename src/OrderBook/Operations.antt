-- ===== src/OrderBook/Operations.antt =====
-- order_book/order_book.hpp: the operations of OrderBook on its orders, its lookup maps and the book
-- that it extends.
use slick_sim.Prelude.{
  ℕ, ◌+◌, String, Bool, false, not, ◌&&◌, ◌∷◌, Option, none, some, eqb, ltb, if◌then◌else◌, ◌==◌,
  lookup, emplace, erase, string_keyed,
}
use slick_sim.Utils.Execution.{execute_order as book_fill}
use slick_sim.OrderBook.L3.{Outcome, OrderBookL3}
use slick_sim.OrderBook.State.{State, contains, remove, write, find_order, free_order, notify_all}

module _ {B : Type 0} where
  unfoldable pub find_order_by_client_order_id : String → State B → Option ℕ
  find_order_by_client_order_id name st = lookup name st.by_client_order_id

  unfoldable pub find_order_by_order_id : String → State B → Option ℕ
  find_order_by_order_id name st = lookup name st.by_order_id

  -- The entries of an order in the three maps.
  unfoldable pub register : ℕ → State B → State B
  register id st =
      let o = st.pool id in
      record st {
        orders = if contains id st.orders then st.orders else id ∷ st.orders;
        by_client_order_id =
            if o.client_order_id == ""
            then st.by_client_order_id
            else emplace o.client_order_id id st.by_client_order_id;
        by_order_id =
            if o.order_id == "" then st.by_order_id else emplace o.order_id id st.by_order_id;
      }

  unfoldable pub unregister : ℕ → State B → State B
  unregister id st =
      let o = st.pool id in
      record st {
        orders = remove id st.orders;
        by_client_order_id =
            if o.client_order_id == ""
            then st.by_client_order_id
            else erase o.client_order_id st.by_client_order_id;
        by_order_id = if o.order_id == "" then st.by_order_id else erase o.order_id st.by_order_id;
      }

  -- nextOrderPriority, written to the order.
  unfoldable pub draw_priority : ℕ → State B → State B
  draw_priority id st =
      write id (λ o. record o { priority = st.next_priority + 1 })
        (record st { next_priority = st.next_priority + 1 })

  -- The book after a call, with its observers told.
  unfoldable pub settle : State B → Outcome B → State B
  settle st out = notify_all out.events (record st { l3 = out.book })

  -- deleteOrder(Order*), which also gives the order back.
  unfoldable pub delete_pooled : ℕ → State B → State B
  delete_pooled id st = free_order id (if contains id st.orders then unregister id st else st)

  -- The two parts of executeOrder that are about an order of the simulator's own.
  unfoldable pub fill_own : Option ℕ → (qty timestamp : ℕ) → State B → State B
  fill_own none qty timestamp st = st
  fill_own (some id) qty timestamp st = write id (λ o. book_fill o.price qty timestamp o) st

  unfoldable pub close_own : Option ℕ → State B → State B
  close_own none st = st
  close_own (some id) st = if eqb (st.pool id).leaves_quantity 0 then unregister id st else st

module _ {B : Type 0} (lib : OrderBookL3 B) where
  -- addOrder(Order*, ...)
  unfoldable pub add_order : (id timestamp seq_num : ℕ) → Bool → State B → State B
  add_order id timestamp seq_num last st =
      let placed = register id (draw_priority id st) in
      let o = placed.pool id in
      settle placed (
        lib.add_order id o.side o.price o.leaves_quantity timestamp o.priority seq_num last
          placed.l3)

  -- deleteOrder(Order*, timestamp, ...)
  unfoldable pub delete_order : (id timestamp seq_num : ℕ) → Bool → State B → State B
  delete_order id timestamp seq_num last st =
      let gone = settle st (lib.delete_order id timestamp seq_num last st.l3) in
      if contains id gone.orders then unregister id gone else gone

  -- modifyOrder(Order*, ...). `found` is whether `it` is an entry of orders_ once the maps are set.
  unfoldable pub modify_order :
      (id new_price new_qty timestamp seq_num : ℕ) → Bool → State B → State B
  modify_order id new_price new_qty timestamp seq_num last st =
      let priced = write id (λ o. record o { price = new_price }) st in
      let known = contains id st.orders in
      let entered =
        if not known
        then (if eqb new_qty 0
            then draw_priority id priced
            else register id (draw_priority id priced))
        else (if eqb new_price (st.pool id).price then st else draw_priority id priced) in
      let sized = write id (λ o. record o { quantity = new_qty }) entered in
      let o = sized.pool id in
      let done = settle sized (
        lib.modify_order id new_price o.leaves_quantity timestamp o.priority seq_num last
          sized.l3) in
      if eqb (done.pool id).leaves_quantity 0 && contains id sized.orders
      then unregister id done
      else done

  -- executeOrder. A sequence number that is behind the book's last one changes nothing.
  unfoldable pub execute_order : (id qty timestamp seq_num : ℕ) → Bool → State B → State B × Bool
  execute_order id qty timestamp seq_num last st =
      let order = find_order id st in
      let filled = fill_own order qty timestamp st in
      let out = lib.execute_order id qty timestamp seq_num last filled.l3 in
      if ltb 0 seq_num && ltb seq_num (lib.last_seq_num st.l3)
      then (st, false)
      else (close_own order (settle filled out), out.accepted)
