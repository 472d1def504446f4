-- ===== src/Exchange/Requests/Refusals.antt =====
-- Requests that the exchange refuses before it matches or changes anything.
use slick_sim.Prelude.{
  ℕ, String, ◌≡◌, ◌≢◌, refl, true, false, ◌∷◌, Option, none, some, lookup, string_keyed, ◌==◌,
  Bool-cases, inl, inr,
}
use slick_sim.Common.Enums.{ExecType, OrderStatus}
use slick_sim.Common.Reasons.{OrdRejectReason}
use slick_sim.Common.Messages.{
  AddOrderMessage, ModifyOrderMessage, CancelOrderMessage, RequestBody, add_order, modify_order,
  cancel_order, Request, OrderResponse,
}
use slick_sim.OrderBook.L3.{OrderBookL3}
use slick_sim.OrderBook.State.{publish}
use slick_sim.OrderBook.Allocation.{Allotment}
use slick_sim.OrderBook.Operations.{find_order_by_client_order_id}
use slick_sim.Exchange.Reports.{
  rejected, reject_new_order, reject_modify_order, reject_cancel_order,
}
use slick_sim.Exchange.Symbol.{Engine}
use slick_sim.Exchange.Session.{Exchange}
use slick_sim.Exchange.Requests.{
  has_symbol, is_taken, named_order, on_book, send_reject_new, send_reject_modify,
  send_reject_cancel, handle_new_order_request, modify_found, handle_modify_order_request,
  cancel_found, handle_cancel_order_request, dispatch, process_request,
}

-- Two different texts are not the same key.
off : (s t : String) → s ≢ t → (s == t) ≡ false
off s t apart = elim (Bool-cases (s == t)) [
  | inl e ↦ absurd (apart ((string_keyed.same_iff s t).0 e))
  | inr e ↦ e
]

module _ {B : Type 0} where
  -- Why a request is refused: it names an instrument that the exchange has not, a client's id that is
  -- taken, or an order that is not there.
  pub data Refusable (request : Request) (ex : Exchange B)
      : RequestBody → OrdRejectReason → Type 0 where
    new_elsewhere :
        (msg : AddOrderMessage)
        → request.symbol ≢ ex.symbol
        → Refusable request ex (add_order msg) OrdRejectReason.unknown_contract
    modify_elsewhere :
        (msg : ModifyOrderMessage)
        → request.symbol ≢ ex.symbol
        → Refusable request ex (modify_order msg) OrdRejectReason.unknown_contract
    cancel_elsewhere :
        (msg : CancelOrderMessage)
        → request.symbol ≢ ex.symbol
        → Refusable request ex (cancel_order msg) OrdRejectReason.unknown_contract
    id_taken :
        (msg : AddOrderMessage) (id : ℕ)
        → request.symbol ≡ ex.symbol
        → msg.client_order_id ≢ ""
        → lookup msg.client_order_id ex.book.by_client_order_id ≡ some id
        → Refusable request ex (add_order msg) OrdRejectReason.client_order_id_already_exists
    modify_nothing :
        (msg : ModifyOrderMessage)
        → request.symbol ≡ ex.symbol
        → named_order msg.client_order_id msg.order_id ex.book ≡ none
        → Refusable request ex (modify_order msg) OrdRejectReason.unknown_order
    cancel_nothing :
        (msg : CancelOrderMessage)
        → request.symbol ≡ ex.symbol
        → named_order msg.client_order_id msg.order_id ex.book ≡ none
        → Refusable request ex (cancel_order msg) OrdRejectReason.unknown_order

  -- One REJECTED response with this reason and the request's tag, and nothing else changes.
  abbrev pub IsRefusal : Request → OrdRejectReason → Exchange B → Option (Exchange B) → Type 0
  IsRefusal request reason ex o =
      (r : OrderResponse) × (o
        ≡ some (record ex { book = record (ex.book) { responses = r ∷ ex.book.responses } }))
      × (r.exec_type ≡ ExecType.rejected)
      × (r.order_status ≡ OrderStatus.rejected)
      × (r.reject_reason ≡ reason)
      × (r.request_tag ≡ request.request_tag)
      × (r.leaves_qty ≡ 0)

  here :
      (request : Request) (ex : Exchange B)
      → request.symbol ≡ ex.symbol
      → has_symbol request ex ≡ true
  unfolding has_symbol
  here request ex e = (string_keyed.same_iff request.symbol ex.symbol).1 e

  elsewhere :
      (request : Request) (ex : Exchange B)
      → request.symbol ≢ ex.symbol
      → has_symbol request ex ≡ false
  unfolding has_symbol
  elsewhere request ex apart = off request.symbol ex.symbol apart

module _ {B : Type 0} (lib : OrderBookL3 B) (engine : Engine B) where
  dispatch_refuses :
      (request : Request) (a : Allotment) (now later : ℕ) (ex : Exchange B) {body : RequestBody}
      {reason : OrdRejectReason}
      → Refusable request ex body reason
      → IsRefusal request reason ex (dispatch lib engine request body a now later ex)
  unfolding dispatch handle_new_order_request handle_modify_order_request
      handle_cancel_order_request modify_found cancel_found is_taken send_reject_new
      send_reject_modify send_reject_cancel on_book publish reject_new_order reject_modify_order
      reject_cancel_order rejected find_order_by_client_order_id
  dispatch_refuses request a now later ex (new_elsewhere msg apart) =
      let e = elsewhere request ex apart in rw e (_, refl, refl, refl, refl, refl, refl)
  dispatch_refuses request a now later ex (modify_elsewhere msg apart) =
      let e = elsewhere request ex apart in rw e (_, refl, refl, refl, refl, refl, refl)
  dispatch_refuses request a now later ex (cancel_elsewhere msg apart) =
      let e = elsewhere request ex apart in rw e (_, refl, refl, refl, refl, refl, refl)
  dispatch_refuses request a now later ex (id_taken msg id same named taken) =
      let e = here request ex same in
      let n = off msg.client_order_id "" named in
      rw (e, n, taken) (_, refl, refl, refl, refl, refl, refl)
  dispatch_refuses request a now later ex (modify_nothing msg same gone) =
      let e = here request ex same in rw (e, gone) (_, refl, refl, refl, refl, refl, refl)
  dispatch_refuses request a now later ex (cancel_nothing msg same gone) =
      let e = here request ex same in rw (e, gone) (_, refl, refl, refl, refl, refl, refl)

  -- A request that names another instrument, a new order under an id that is taken, and an amendment or a
  -- cancellation of an order that is not there are each answered by one REJECTED response with the reason
  -- and the request's tag, and nothing else of the exchange changes.
  pub process_request-IsRefusal :
      (request : Request) (a : Allotment) (now later : ℕ) (ex : Exchange B)
      (reason : OrdRejectReason)
      → Refusable request ex request.body reason
      → IsRefusal request reason ex (process_request lib engine request a now later ex)
  unfolding process_request
  process_request-IsRefusal request a now later ex reason why =
      dispatch_refuses request a now later ex why
