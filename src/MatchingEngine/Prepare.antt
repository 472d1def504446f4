-- ===== src/MatchingEngine/Prepare.antt =====
-- matching_engine/match_common.hpp: what a client order goes through before it matches. `levels` is the
-- resting side of the book.
use slick_sim.Prelude.{
  ℕ, ◌+◌, ◌-◌, not, ◌&&◌, List, Option, none, some, eqb, ltb, leb, if◌then◌else◌,
}
use slick_sim.Common.Enums.{
  OrderStatus, TimeInForce, SelfMatchPreventionMode, status_is, tif_is, smp_is,
}
use slick_sim.Common.Reasons.{OrdRejectReason}
use slick_sim.Common.Order.{Order}
use slick_sim.OrderBook.L3.{PriceLevelL3}
use slick_sim.OrderBook.State.{State, write}
use slick_sim.MatchingEngine.Publish.{publish_order_ack, publish_order_modify, publish_order_cancel}
use slick_sim.MatchingEngine.SelfMatch.{Reach, MatchCall, would_self_match, can_fill_completely}

-- The effective quantity of the CANCEL_NEWEST check: not below zero.
unfoldable pub effective_qty : MatchCall → Order → ℕ
effective_qty m o =
    if status_is o.status OrderStatus.pending_replace
    then o.leaves_quantity + m.order_qty - o.quantity
    else o.leaves_quantity

-- Step 2 of prepareOrder: a pending replace is written to the order.
unfoldable pub replaced : MatchCall → Order → Order
replaced m o = record o {
  quantity = m.order_qty;
  price = m.order_price;
  leaves_quantity = if leb m.order_qty o.cum_quantity then 0 else m.order_qty - o.cum_quantity;
}

module _ {B : Type 0} where
  unfoldable pub apply_replace : MatchCall → State B → State B
  apply_replace m st =
      if status_is (st.pool m.order).status OrderStatus.pending_replace
      then publish_order_modify m.order m.order_price m.order_qty m.request_time
          (write m.order (replaced m) st)
      else st

  -- The end of prepareOrder: an order with nothing left is cancelled here.
  unfoldable pub check_leaves : MatchCall → State B → State B × Option OrdRejectReason
  check_leaves m st =
      if eqb (st.pool m.order).leaves_quantity 0
      then (publish_order_cancel m.order m.request_time st, some OrdRejectReason.none)
      else (st, none)

  -- prepareOrder: the reject reason when the order is finished here.
  unfoldable pub prepare_order :
      Reach → MatchCall → List PriceLevelL3 → State B → State B × Option OrdRejectReason
  prepare_order reach m levels st =
      let o = st.pool m.order in
      let wanted = effective_qty m o in
      let acked =
        if status_is o.status OrderStatus.pending_new
        then publish_order_ack m.order m.request_time st
        else st in
      if smp_is m.smp_mode SelfMatchPreventionMode.cancel_newest
        && (ltb 0 wanted && would_self_match reach m.side st m.order m.order_price wanted levels)
      then (st, some OrdRejectReason.smp)
      else if tif_is o.time_in_force TimeInForce.fill_or_kill
          && not
              (can_fill_completely m.side acked m.smp_mode m.order m.order_price m.order_qty levels)
      then (publish_order_cancel m.order m.request_time acked, some OrdRejectReason.fok_cannot_fill)
      else check_leaves m (apply_replace m acked)
