-- ===== src/Exchange/Requests.antt =====
-- exchange/exchange.cpp: the handlers of a client's requests, over the venue's matching engine as an
-- interface. `none` is a match that did not end within its fuel. `now` and `later` are readings of the
-- clock.
pub mod Settled
pub mod Refusals
pub mod Returns
use slick_sim.Prelude.{
  ℕ, String, Bool, not, ◌&&◌, Option, none, some, eqb, if◌then◌else◌, ◌==◌, string_keyed, is_some,
}
use slick_sim.Common.Enums.{OrderStatus}
use slick_sim.Common.Reasons.{OrdRejectReason, ord_reject_reason_code}
use slick_sim.Common.Order.{Order, reset_fill_accounting}
use slick_sim.Common.Messages.{
  AddOrderMessage, ModifyOrderMessage, CancelOrderMessage, RequestBody, add_order, modify_order,
  cancel_order, md_subscription, md_unsubscription, Request,
}
use slick_sim.OrderBook.L3.{OrderBookL3}
use slick_sim.OrderBook.State.{State, write, publish}
use slick_sim.OrderBook.Allocation.{Allotment, allocate_order}
use slick_sim.OrderBook.Operations.{find_order_by_client_order_id, find_order_by_order_id}
use slick_sim.MatchingEngine.Fifo.{MatchResult}
use slick_sim.Exchange.Reports.{
  order_new_pending, order_replace_pending, order_cancel_pending, reject_new_order,
  reject_modify_order, reject_cancel_order,
}
use slick_sim.Exchange.Symbol.{
  Engine, is_none, add_order as place_order, modify_order as amend_order,
  cancel_order as withdraw_order,
}
use slick_sim.Exchange.Session.{
  Exchange, client_id_for, publish_trade_summaries, flush_market_data_caches,
}

-- The fields that handleNewOrderRequest writes.
unfoldable pub new_order : Request → AddOrderMessage → (symbol : String) → Option ℕ → Order → Order
new_order request msg symbol client_id o =
    let filled = reset_fill_accounting msg.qty o in
    record filled {
      identity = record (filled.identity) {
        symbol = symbol;
        client_order_id = msg.client_order_id;
        user_id = msg.user_id;
      };
      client_id = client_id;
      side = msg.side;
      type = msg.type;
      time_in_force = msg.time_in_force;
      price = msg.price;
      status = OrderStatus.pending_new;
      request_tag = request.request_tag;
    }

-- A new order's rejection is reported unless it is the fill-or-kill one.
unfoldable pub is_reported : OrdRejectReason → Bool
is_reported reason =
    not (is_none reason)
    && not (
        eqb (ord_reject_reason_code reason)
          (ord_reject_reason_code OrdRejectReason.fok_cannot_fill))

module _ {B : Type 0} where
  unfoldable pub on_book : (State B → State B) → Exchange B → Exchange B
  on_book f ex = record ex { book = f ex.book }

  -- getSymbol
  unfoldable pub has_symbol : Request → Exchange B → Bool
  has_symbol request ex = request.symbol == ex.symbol

  unfoldable pub send_reject_new :
      Request → AddOrderMessage → OrdRejectReason → (now : ℕ) → Exchange B → Exchange B
  send_reject_new request msg reason now ex =
      on_book (publish (reject_new_order request msg reason now)) ex

  unfoldable pub send_reject_modify :
      Request → ModifyOrderMessage → OrdRejectReason → (now : ℕ) → Exchange B → Exchange B
  send_reject_modify request msg reason now ex =
      on_book (publish (reject_modify_order request msg reason now)) ex

  unfoldable pub send_reject_cancel :
      Request → CancelOrderMessage → OrdRejectReason → (now : ℕ) → Exchange B → Exchange B
  send_reject_cancel request msg reason now ex =
      on_book (publish (reject_cancel_order request msg reason now)) ex

  -- Whether the client's own id for a new order is taken.
  unfoldable pub is_taken : String → State B → Bool
  is_taken name st = not (name == "") && is_some (find_order_by_client_order_id name st)

  -- The order that a request names, by the client's id for it or else by the exchange's.
  unfoldable pub named_order : (client_order_id order_id : String) → State B → Option ℕ
  named_order client_order_id order_id st =
      if client_order_id == ""
      then find_order_by_order_id order_id st
      else find_order_by_client_order_id client_order_id st

  -- sendOrderNewPending, sendOrderReplacePending and sendOrderCancelPending of the order `id`.
  unfoldable pub send_new_pending : (id request_time : ℕ) → State B → State B
  send_new_pending id request_time st = publish (order_new_pending (st.pool id) request_time) st

  unfoldable pub send_replace_pending : (id request_time : ℕ) → State B → State B
  send_replace_pending id request_time st =
      publish (order_replace_pending (st.pool id) request_time) st

  unfoldable pub send_cancel_pending : (id request_time : ℕ) → State B → State B
  send_cancel_pending id request_time st =
      publish (order_cancel_pending (st.pool id) request_time) st

  unfoldable pub enter_new : Request → AddOrderMessage → Allotment → Exchange B → Exchange B
  enter_new request msg a ex =
      let (client_id, known) = client_id_for msg.user_id ex in
      on_book
        (λ st.
          send_new_pending a.id request.time_stamp
            (write a.id (new_order request msg known.symbol client_id) (allocate_order a st)))
        known

  -- What follows a match of a new order: the tape, the rejection and the caches.
  unfoldable pub conclude_new :
      Request
      → AddOrderMessage
      → (now : ℕ) → Exchange B
      → Option (MatchResult B)
      → Option (Exchange B)
  conclude_new request msg now ex none = none
  conclude_new request msg now ex (some r) =
      let printed = publish_trade_summaries r.summaries (record ex { book = r.st }) in
      some (
        flush_market_data_caches (
          if is_reported r.reason
          then send_reject_new request msg r.reason now printed
          else printed))

  -- A rejected amendment gives the order its last accepted tag back.
  unfoldable pub conclude_modify :
      Request
      → ModifyOrderMessage
      → (id accepted_tag now : ℕ) → Exchange B
      → Option (MatchResult B)
      → Option (Exchange B)
  conclude_modify request msg id accepted_tag now ex none = none
  conclude_modify request msg id accepted_tag now ex (some r) =
      let printed = publish_trade_summaries r.summaries (record ex { book = r.st }) in
      let untagged = on_book (write id (λ o. record o { request_tag = accepted_tag })) printed in
      some (
        flush_market_data_caches (
          if is_none r.reason
          then printed
          else send_reject_modify request msg r.reason now untagged))

  unfoldable pub enter_modify : Request → (id now : ℕ) → Exchange B → Exchange B
  enter_modify request id now ex =
      on_book
        (λ st. send_replace_pending id request.time_stamp (
          write id
            (λ o. record o {
              status = OrderStatus.pending_replace;
              last_update_time = now;
              request_tag = request.request_tag;
            })
            st))
        ex

  unfoldable pub enter_cancel : Request → (id : ℕ) → Exchange B → Exchange B
  enter_cancel request id ex =
      on_book
        (λ st. send_cancel_pending id request.time_stamp (
          write id
            (λ o. record o {
              status = OrderStatus.pending_cancel;
              request_tag = request.request_tag;
            })
            st))
        ex

module _ {B : Type 0} (lib : OrderBookL3 B) (engine : Engine B) where
  unfoldable pub accept_new :
      Request → AddOrderMessage → Allotment → (later : ℕ) → Exchange B → Option (Exchange B)
  accept_new request msg a later ex =
      let entered = enter_new request msg a ex in
      conclude_new request msg later entered
        (place_order lib engine entered.smp_mode a.id request.time_stamp entered.book)

  -- handleNewOrderRequest
  unfoldable pub handle_new_order_request :
      Request → AddOrderMessage → Allotment → (later : ℕ) → Exchange B → Option (Exchange B)
  handle_new_order_request request msg a later ex =
      if not (has_symbol request ex)
      then some (send_reject_new request msg OrdRejectReason.unknown_contract later ex)
      else if is_taken msg.client_order_id ex.book
      then some
          (send_reject_new request msg OrdRejectReason.client_order_id_already_exists later ex)
      else accept_new request msg a later ex

  unfoldable pub modify_found :
      Request → ModifyOrderMessage → (now later : ℕ) → Exchange B → Option ℕ → Option (Exchange B)
  modify_found request msg now later ex none =
      some (send_reject_modify request msg OrdRejectReason.unknown_order later ex)
  modify_found request msg now later ex (some id) =
      let entered = enter_modify request id now ex in
      conclude_modify request msg id (ex.book.pool id).request_tag later entered (
        amend_order lib engine entered.smp_mode id msg.new_price msg.new_qty request.time_stamp
          later entered.book)

  -- handleModifyOrderRequest
  unfoldable pub handle_modify_order_request :
      Request → ModifyOrderMessage → (now later : ℕ) → Exchange B → Option (Exchange B)
  handle_modify_order_request request msg now later ex =
      if not (has_symbol request ex)
      then some (send_reject_modify request msg OrdRejectReason.unknown_contract later ex)
      else modify_found request msg now later ex
          (named_order msg.client_order_id msg.order_id ex.book)

  unfoldable pub cancel_found :
      Request → CancelOrderMessage → (now : ℕ) → Exchange B → Option ℕ → Exchange B
  cancel_found request msg now ex none =
      send_reject_cancel request msg OrdRejectReason.unknown_order now ex
  cancel_found request msg now ex (some id) =
      flush_market_data_caches
        (on_book (withdraw_order lib id request.time_stamp now) (enter_cancel request id ex))

  -- handleCancelOrderRequest
  unfoldable pub handle_cancel_order_request :
      Request → CancelOrderMessage → (now : ℕ) → Exchange B → Exchange B
  handle_cancel_order_request request msg now ex =
      if not (has_symbol request ex)
      then send_reject_cancel request msg OrdRejectReason.unknown_contract now ex
      else cancel_found request msg now ex (named_order msg.client_order_id msg.order_id ex.book)

  -- The base class handles no subscription.
  unfoldable pub dispatch :
      Request → RequestBody → Allotment → (now later : ℕ) → Exchange B → Option (Exchange B)
  dispatch request (add_order msg) a now later ex = handle_new_order_request request msg a later ex
  dispatch request (modify_order msg) a now later ex =
      handle_modify_order_request request msg now later ex
  dispatch request (cancel_order msg) a now later ex =
      some (handle_cancel_order_request request msg now ex)
  dispatch request (md_subscription channel) a now later ex = some ex
  dispatch request (md_unsubscription channel) a now later ex = some ex

  -- processRequest, on the request that the queue gave.
  unfoldable pub process_request :
      Request → Allotment → (now later : ℕ) → Exchange B → Option (Exchange B)
  process_request request a now later ex = dispatch request request.body a now later ex
