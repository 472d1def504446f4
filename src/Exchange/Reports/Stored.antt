-- ===== src/Exchange/Reports/Stored.antt =====
-- What a gateway's order store makes of the exchange's own reports (order_store.hpp over
-- exchange.cpp).
use slick_sim.Prelude.{
  ℕ, ◌≡◌, refl, ap, ◌∙◌, String, true, false, some, arith, ◌==◌, string_keyed, lookup,
}
use slick_sim.Common.Enums.{OrderStatus}
use slick_sim.Common.Reasons.{OrdRejectReason}
use slick_sim.Common.Order.{Order}
use slick_sim.Common.Messages.{ModifyOrderMessage, Request, OrderResponse, set_order_identity}
use slick_sim.OrderGateway.OrderStore.{
  OrderStore, no_orders, first_sight, copy_report, copy_fill, copy_message, fold_report, apply,
  find,
}
use slick_sim.OrderGateway.OrderStore.Projection.{find-apply, follow}
use slick_sim.Exchange.Reports.{order_new_pending, rejected, reject_modify_order}

-- A report changes no field of an order but those that it copies.
fold_report-created :
    (r : OrderResponse) (o : Order) → (fold_report r o).created_time ≡ o.created_time
unfolding fold_report copy_message copy_fill copy_report
fold_report-created r o = ground arith

copied :
    (r : OrderResponse) (o : Order)
    → ((fold_report r o).status ≡ r.order_status)
      × ((fold_report r o).leaves_quantity ≡ r.leaves_qty)
      × ((fold_report r o).side ≡ r.side)
      × ((fold_report r o).time_in_force ≡ r.time_in_force)
unfolding fold_report copy_message copy_fill copy_report
copied r o = (ground arith, ground arith, ground arith, ground arith)

own_report :
    (id : String) (r : OrderResponse) (st : OrderStore)
    → r.order_id ≡ id
    → (id == "") ≡ false
    → find id (apply r st) ≡ some (follow r (find id st))
own_report id r st e named =
    let own : (r.order_id == id) ≡ true = (string_keyed.same_iff r.order_id id).1 e in
    find-apply id r st named ∙ rw own refl

-- The first report of a new order, PENDING_NEW, makes an entry in an empty store with the order's
-- side and leaves, but with the creation time and the time in force that the recycled queue slot held
-- before, whatever they were.
pub stored_new_pending :
    (o : Order) (request_time : ℕ) (slot : OrderResponse)
    → (o.order_id == "") ≡ false
    → (x : Order) × (find o.order_id (apply (order_new_pending o request_time slot) no_orders)
        ≡ some x)
      × (x.side ≡ o.side)
      × (x.leaves_quantity ≡ o.leaves_quantity)
      × (x.created_time ≡ slot.creation_time)
      × (x.time_in_force ≡ slot.time_in_force)
unfolding order_new_pending set_order_identity find lookup first_sight
stored_new_pending o request_time slot named =
    let r = order_new_pending o request_time slot in
    let entry = first_sight r in
    let (status, leaves, side, tif) = copied r entry in
    (
      fold_report r entry,
      own_report o.order_id r no_orders refl named,
      side,
      leaves,
      fold_report-created r entry,
      tif,
    )

-- A rejected amendment of an order that the store has marks the order REJECTED, with nothing left, and
-- gives it the side and the time in force that the recycled queue slot held before.
pub stored_rejected_modify :
    (request : Request) (msg : ModifyOrderMessage) (reason : OrdRejectReason) (now : ℕ)
    (slot : OrderResponse) (st : OrderStore) (live : Order)
    → (msg.order_id == "") ≡ false
    → find msg.order_id st ≡ some live
    → (x : Order) × (find msg.order_id (apply (reject_modify_order request msg reason now slot) st)
        ≡ some x)
      × (x.status ≡ OrderStatus.rejected)
      × (x.leaves_quantity ≡ 0)
      × (x.side ≡ slot.side)
      × (x.time_in_force ≡ slot.time_in_force)
unfolding reject_modify_order rejected
stored_rejected_modify request msg reason now slot st live named has =
    let r = reject_modify_order request msg reason now slot in
    let (status, leaves, side, tif) = copied r live in
    (
      fold_report r live,
      own_report msg.order_id r st refl named ∙ ap (λ o. some (follow r o)) has,
      status,
      leaves,
      side,
      tif,
    )
