-- ===== src/Exchange/Requests/Returns.antt =====
-- Requests that the exchange takes: a new order, with the FIFO engine, and a cancellation.
use slick_sim.Prelude.{
  ℕ, String, ◌+◌, ◌<◌, ◌≡◌, ◌≢◌, refl, ap, ◌∙◌, true, false, List, [], ◌∷◌, Option, none, some,
  lookup, string_keyed, ◌==◌, if◌then◌else◌, Bool-cases, inl, inr, ◌⊎◌, eqb_refl, arith,
}
use slick_sim.Common.Enums.{Side, ExecType, OrderStatus}
use slick_sim.Common.Order.{Order, OrderIdentity, null_price, reset_fill_accounting}
use slick_sim.Common.MarketData.{MdLevel, MdOrder}
use slick_sim.Common.Messages.{
  AddOrderMessage, CancelOrderMessage, Request, OrderResponse, TradeSummaryInfo, set_order_identity,
}
use slick_sim.OrderBook.L3.{OrderBookL3, IsOrderBookL3, RestsOn, drop_levels}
use slick_sim.OrderBook.Levels.{count_orders, Priced, IsAbsent}
use slick_sim.OrderBook.State.{State, write, publish, find_order}
use slick_sim.OrderBook.Operations.{find_order_by_client_order_id, find_order_by_order_id}
use slick_sim.OrderBook.Allocation.{Allotment, allocate_order}
use slick_sim.MatchingEngine.Fifo.{MatchResult, resting_side}
use slick_sim.Exchange.Reports.{order_cancel_pending, order_cancel_pending_asserts}
use slick_sim.Exchange.Symbol.{Engine, fifo_engine, cancel_order as withdraw_order}
use slick_sim.Exchange.Symbol.Place.{add_order-IsPlaced}
use slick_sim.Exchange.Symbol.Cancel.{without, NamesGone, cancel_order_lem}
use slick_sim.Exchange.Session.{
  Exchange, client_found, client_id_for, publish_frame, flush_levels, flush_orders,
  flush_market_data_caches, publish_trade_summary, publish_trade_summaries,
}
use slick_sim.Exchange.Requests.{
  has_symbol, is_taken, is_reported, named_order, new_order, on_book, send_new_pending,
  send_cancel_pending, enter_new, enter_cancel, send_reject_new, conclude_new, accept_new,
  handle_new_order_request, cancel_found, handle_cancel_order_request,
}

module _ {B : Type 0} where
  client_found-book :
      (u : String) (ex : Exchange B) (o : Option ℕ) → (client_found u o ex).1.book ≡ ex.book
  unfolding client_found
  client_found-book u ex none = refl
  client_found-book u ex (some i) = refl

  client_id_for-book : (u : String) (ex : Exchange B) → (client_id_for u ex).1.book ≡ ex.book
  unfolding client_id_for
  client_id_for-book u ex = elim (Bool-cases (u == "")) [
    | inl e ↦ rw e refl
    | inr e ↦ rw e (client_found-book u ex (lookup u ex.client_ids))
  ]

  pub publish_trade_summaries-book :
      (ss : List TradeSummaryInfo) (ex : Exchange B)
      → (publish_trade_summaries ss ex).book ≡ ex.book
  unfolding publish_trade_summaries publish_trade_summary publish_frame
  publish_trade_summaries-book [] ex = refl
  publish_trade_summaries-book (s ∷ ss) ex =
      publish_trade_summaries-book ss (publish_trade_summary s ex)

  -- What publishing leaves of the book: all but the caches.
  abbrev pub SameBook : State B → State B → Type 0
  SameBook st st' =
      (st'.l3 ≡ st.l3)
      × (st'.orders ≡ st.orders)
      × (st'.freed ≡ st.freed)
      × (st'.responses ≡ st.responses)

  flush_levels-SameBook :
      (ls : List MdLevel) (ex : Exchange B) → SameBook ex.book (flush_levels ls ex).book
  unfolding flush_levels publish_frame
  flush_levels-SameBook [] ex = (refl, refl, refl, refl)
  flush_levels-SameBook (l ∷ ls) ex = (refl, refl, refl, refl)

  flush_orders-SameBook :
      (os : List MdOrder) (ex : Exchange B) → SameBook ex.book (flush_orders os ex).book
  unfolding flush_orders publish_frame
  flush_orders-SameBook [] ex = (refl, refl, refl, refl)
  flush_orders-SameBook (o ∷ os) ex = elim (Bool-cases ex.publish_order_updates) [
    | inl e ↦ rw e (refl, refl, refl, refl)
    | inr e ↦ rw e (refl, refl, refl, refl)
  ]

  abbrev SameMaps : State B → State B → Type 0
  SameMaps st st' =
      (st'.by_client_order_id ≡ st.by_client_order_id) × (st'.by_order_id ≡ st.by_order_id)

  flush_levels-names :
      (ls : List MdLevel) (ex : Exchange B) → SameMaps ex.book (flush_levels ls ex).book
  unfolding flush_levels publish_frame
  flush_levels-names [] ex = (refl, refl)
  flush_levels-names (l ∷ ls) ex = (refl, refl)

  flush_orders-names :
      (os : List MdOrder) (ex : Exchange B) → SameMaps ex.book (flush_orders os ex).book
  unfolding flush_orders publish_frame
  flush_orders-names [] ex = (refl, refl)
  flush_orders-names (o ∷ os) ex = elim (Bool-cases ex.publish_order_updates) [
    | inl e ↦ rw e (refl, refl)
    | inr e ↦ rw e (refl, refl)
  ]

  pub flush-SameBook : (ex : Exchange B) → SameBook ex.book (flush_market_data_caches ex).book
  unfolding flush_market_data_caches
  flush-SameBook ex =
      let sent = flush_levels ex.book.level_cache ex in
      let (a, b, c, d) = flush_levels-SameBook ex.book.level_cache ex in
      let (a', b', c', d') = flush_orders-SameBook sent.book.order_cache sent in
      (a' ∙ a, b' ∙ b, c' ∙ c, d' ∙ d)

  -- Publishing the caches keeps the names.
  flush-names :
      (ex : Exchange B)
      → let after = (flush_market_data_caches ex).book in
        (after.by_client_order_id ≡ ex.book.by_client_order_id)
        × (after.by_order_id ≡ ex.book.by_order_id)
  unfolding flush_market_data_caches
  flush-names ex =
      let sent = flush_levels ex.book.level_cache ex in
      let (c, n) = flush_levels-names ex.book.level_cache ex in
      let (c', n') = flush_orders-names sent.book.order_cache sent in (c' ∙ c, n' ∙ n)

  -- The order is found, or its slot was the last one freed.
  abbrev pub IsRestingOrFreed : ℕ → State B → Type 0
  IsRestingOrFreed id st = (find_order id st ≡ some id) ⊎ ((ids : List ℕ) × (st.freed ≡ id ∷ ids))

  IsRestingOrFreed-Same :
      (id : ℕ) (st st' : State B)
      → st'.orders ≡ st.orders
      → st'.freed ≡ st.freed
      → IsRestingOrFreed id st
      → IsRestingOrFreed id st'
  unfolding find_order
  IsRestingOrFreed-Same id st st' o f (inl h) = inl (rw o h)
  IsRestingOrFreed-Same id st st' o f (inr (ids, h)) = inr (ids, f ∙ h)

  conclude_new-IsRestingOrFreed :
      (request : Request) (msg : AddOrderMessage) (id now : ℕ) (ex : Exchange B) (r : MatchResult B)
      → IsRestingOrFreed id r.st
      → (ex' : Exchange B) × (conclude_new request msg now ex (some r) ≡ some ex')
        × IsRestingOrFreed id ex'.book
  unfolding conclude_new send_reject_new on_book publish
  conclude_new-IsRestingOrFreed request msg id now ex r h =
      let printed = publish_trade_summaries r.summaries (record ex { book = r.st }) in
      let same = publish_trade_summaries-book r.summaries (record ex { book = r.st }) in
      let done =
        if is_reported r.reason
        then send_reject_new request msg r.reason now printed
        else printed in
      let o : done.book.orders ≡ r.st.orders = elim (Bool-cases (is_reported r.reason)) [
        | inl e ↦ rw e (ap (λ (st : State B). st.orders) same)
        | inr e ↦ rw e (ap (λ (st : State B). st.orders) same)
      ] in
      let f : done.book.freed ≡ r.st.freed = elim (Bool-cases (is_reported r.reason)) [
        | inl e ↦ rw e (ap (λ (st : State B). st.freed) same)
        | inr e ↦ rw e (ap (λ (st : State B). st.freed) same)
      ] in
      let (_, o', f', _) = flush-SameBook done in
      (flush_market_data_caches done, refl, IsRestingOrFreed-Same id r.st _ (o' ∙ o) (f' ∙ f) h)

  -- What a new order's entry leaves alone, and the side that it gives the order.
  enter_new_lem :
      (request : Request) (msg : AddOrderMessage) (a : Allotment) (ex : Exchange B)
      → let st = (enter_new request msg a ex).book in
        (st.l3 ≡ ex.book.l3) × ((st.pool a.id).side ≡ msg.side)
  unfolding enter_new on_book send_new_pending publish write allocate_order new_order
      reset_fill_accounting
  enter_new_lem request msg a ex =
      (ap (λ (st : State B). st.l3) (client_id_for-book msg.user_id ex), rw (eqb_refl a.id) refl)

-- A report answers the request, and is about the order.
abbrev pub Answered : Request → Order → OrderResponse → Type 0
Answered request o r =
    (r.identity ≡ o.identity) × (r.order_num ≡ o.id) × (r.request_tag ≡ request.request_tag)

module _ {B : Type 0} (lib : OrderBookL3 B) (laws : IsOrderBookL3 lib) where
  open laws use {IsBook}

  -- A new order for the exchange's instrument, under no id of the client's or one that is free, on a book
  -- that keeps the laws of the L3 book and has no level at the null price, with an order id that rests
  -- nowhere on the opposite side, and with more fuel than resting orders there plus one: the FIFO exchange
  -- returns, and the order is then found or its slot is the last one freed.
  pub handle_new_order_request-returns :
      (fuel : ℕ) (request : Request) (msg : AddOrderMessage) (a : Allotment) (later : ℕ)
      (ex : Exchange B)
      → let levels = lib.levels (resting_side msg.side) ex.book.l3 in
        has_symbol request ex ≡ true
        → is_taken msg.client_order_id ex.book ≡ false
        → IsBook ex.book.l3
        → Priced (λ x. x ≢ null_price) levels
        → IsAbsent a.id levels
        → count_orders levels + 1 < fuel
        → (ex' : Exchange B) × (handle_new_order_request lib
              (fifo_engine lib fuel)
              request
              msg
              a
              later
              ex
            ≡ some ex')
          × IsRestingOrFreed a.id ex'.book
  unfolding handle_new_order_request accept_new
  handle_new_order_request-returns fuel request msg a later ex known free b proper away enough =
      let entered = enter_new request msg a ex in
      let (book, side) = enter_new_lem request msg a ex in
      let levels_are : lib.levels (resting_side (entered.book.pool a.id).side) entered.book.l3
          ≡ lib.levels (resting_side msg.side) ex.book.l3 =
        rw (book, side) refl in
      let b' : IsBook entered.book.l3 = rw book b in
      let (r, r', _, returns, placed) =
        add_order-IsPlaced lib laws fuel entered.smp_mode a.id request.time_stamp entered.book b'
          (rw levels_are proper) (rw levels_are away) (rw levels_are enough) in
      let fate : IsRestingOrFreed a.id r'.st = elim placed [
        | inl (_, rested) ↦ inl rested.1
        | inr (_, freed) ↦ inr (r.st.freed, freed.2)
      ] in
      let (ex', e, f) = conclude_new-IsRestingOrFreed request msg a.id later entered r' fate in
      (ex', rw (known, free) (ap (conclude_new request msg later entered) returns ∙ e), f)

  -- A cancellation, for the exchange's instrument, of an order that is named, rests and has nothing filled,
  -- as a debug build asserts, takes exactly that order off both sides of the book, which stays a book; the
  -- order is not found any more, neither under its id nor under its names, and its slot is the last one
  -- freed; and two reports come, of the order's identity and number and with the request's tag:
  -- PENDING_CANCEL with all that is left, and then CANCELED with nothing left.
  pub handle_cancel_order_request-cancels :
      (engine : Engine B) (s : Side) (id q now : ℕ) (request : Request) (msg : CancelOrderMessage)
      (ex : Exchange B)
      → has_symbol request ex ≡ true
      → named_order msg.client_order_id msg.order_id ex.book ≡ some id
      → find_order id ex.book ≡ some id
      → order_cancel_pending_asserts (ex.book.pool id) ≡ true
      → IsBook ex.book.l3
      → RestsOn id q (lib.levels s ex.book.l3)
      → let after = (handle_cancel_order_request lib engine request msg now ex).book in
        IsBook after.l3
        × ((t : Side) → lib.levels t after.l3 ≡ drop_levels id (lib.levels t ex.book.l3))
        × (find_order id after ≡ none)
        × NamesGone id ex.book after
        × (after.freed ≡ id ∷ ex.book.freed)
        × ((done pending : OrderResponse) × (after.responses ≡ done ∷ (pending ∷ ex.book.responses))
            × Answered request (ex.book.pool id) pending
            × Answered request (ex.book.pool id) done
            × (pending.exec_type ≡ ExecType.pending_cancel)
            × (pending.leaves_qty ≡ (ex.book.pool id).quantity)
            × (done.exec_type ≡ ExecType.canceled)
            × (done.order_status ≡ OrderStatus.canceled)
            × (done.leaves_qty ≡ 0))
  unfolding handle_cancel_order_request cancel_found find_order enter_cancel on_book
      send_cancel_pending publish order_cancel_pending write set_order_identity
      order_cancel_pending_asserts find_order_by_client_order_id find_order_by_order_id
  handle_cancel_order_request-cancels engine s id q now request msg ex known named found whole b
        rests =
      let entered = enter_cancel request id ex in
      let withdrawn = withdraw_order lib id request.time_stamp now entered.book in
      let (book, levels, gone, names, freed, (done, responses, of, exec, status, left)) =
        cancel_order_lem lib laws s id q request.time_stamp now entered.book b rests found in
      let (identity, num, tag) = of in
      let (l', o', f', r') = flush-SameBook (record entered { book = withdrawn }) in
      let (c, n) = flush-names (record entered { book = withdrawn }) in
      let same : (entered.book.pool id).identity ≡ (ex.book.pool id).identity =
        rw (eqb_refl id) refl in
      rw (known, named)
        (
          rw l' book,
          λ t. ap (lib.levels t) l' ∙ levels t,
          rw o' gone,
          λ name.
              (let (by_client, by_order) = names name in
                (
                  ap (lookup name) c
                      ∙ by_client
                      ∙ ap
                          (λ (o : OrderIdentity).
                            without o.client_order_id name (lookup name ex.book.by_client_order_id))
                          same,
                  ap (lookup name) n
                      ∙ by_order
                      ∙ ap
                          (λ (o : OrderIdentity).
                            without o.order_id name (lookup name ex.book.by_order_id))
                          same,
                )),
          f' ∙ freed,
          (
            done,
            _,
            r' ∙ responses,
            (rw (eqb_refl id) refl, rw (eqb_refl id) refl, rw (eqb_refl id) refl),
            (
              identity ∙ rw (eqb_refl id) refl,
              num ∙ rw (eqb_refl id) refl,
              tag ∙ rw (eqb_refl id) refl,
            ),
            refl,
            rw (eqb_refl id) (ground (arith, whole)),
            exec,
            status,
            left,
          ),
        )
