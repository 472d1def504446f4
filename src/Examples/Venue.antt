-- ===== src/Examples/Venue.antt =====
-- A new order and a cancellation on the small book, and what a gateway's store makes of reports.
use slick_sim.Prelude.{
  ℕ, ◌≡◌, refl, arith, String, List, [], ◌∷◌, Option, none, some, inl, inr, string_keyed,
}
use slick_sim.Common.Enums.{Side, OrderStatus, ExecType, SelfMatchPreventionMode}
use slick_sim.Common.Reasons.{OrdRejectReason}
use slick_sim.Common.Order.{Order}
use slick_sim.Common.Messages.{ModifyOrderMessage, modify_order, Request, OrderResponse}
use slick_sim.OrderBook.L3.{drop_levels}
use slick_sim.OrderBook.State.{State, find_order}
use slick_sim.MatchingEngine.Fifo.{MatchResult, fifo_match}
use slick_sim.OrderGateway.OrderStore.{OrderStore, no_orders, apply, find}
use slick_sim.Exchange.Reports.{order_new_pending, reject_modify_order}
use slick_sim.Exchange.Reports.Stored.{stored_new_pending, stored_rejected_modify}
use slick_sim.Exchange.Symbol.{new_call, fifo_engine, add_order, cancel_order}
use slick_sim.Exchange.Symbol.Cancel.{NamesGone, IsOf, cancel_order_lem}
use slick_sim.Exchange.Symbol.Place.{IsPlaced, add_order-IsPlaced}
use slick_sim.Examples.Book.{Sells, sells, sell_book, sell_book-IsOrderBookL3}
use slick_sim.Examples.Matching.{
  someone, slot, sells_of_two, resting, sells_of_two-IsBook, sells_of_two-Priced,
}

add_order-IsPlaced_example :
    (r r' : MatchResult Sells) × (fifo_match sell_book 5
        (new_call SelfMatchPreventionMode.cancel_resting 7 3 resting)
        resting
      ≡ some r)
    × (add_order sell_book
          (fifo_engine sell_book 5)
          SelfMatchPreventionMode.cancel_resting
          7
          3
          resting
        ≡ some r')
    × IsPlaced sell_book 7 r r'
unfolding slick_sim.MatchingEngine.Fifo.resting_side
add_order-IsPlaced_example =
    add_order-IsPlaced sell_book sell_book-IsOrderBookL3 5 SelfMatchPreventionMode.cancel_resting 7
      3 resting sells_of_two-IsBook sells_of_two-Priced (refl, (refl, tt)) (omega arith)

abbrev named : State Sells
named = record resting { by_client_order_id = ("c", 2) ∷ [] }

cancel_order_lem_example :
    let after = cancel_order sell_book 2 3 4 named in
    sell_book-IsOrderBookL3.IsBook after.l3
    × ((t : Side) → sells t after.l3 ≡ drop_levels 2 (sells t sells_of_two))
    × (find_order 2 after ≡ none)
    × NamesGone 2 named after
    × (after.freed ≡ 2 ∷ [])
    × ((r : OrderResponse) × (after.responses ≡ r ∷ [])
        × IsOf 2 named r
        × (r.exec_type ≡ ExecType.canceled)
        × (r.order_status ≡ OrderStatus.canceled)
        × (r.leaves_qty ≡ 0))
unfolding find_order
cancel_order_lem_example =
    cancel_order_lem sell_book sell_book-IsOrderBookL3 Side.sell 2 1 3 4 named sells_of_two-IsBook
      (inl (inr ((λ e. omega arith), inl (refl, refl)))) refl

stored_new_pending_example :
    (x : Order) × (find "o" (apply (order_new_pending someone 3 slot) no_orders) ≡ some x)
    × (x.side ≡ Side.buy)
    × (x.leaves_quantity ≡ 5)
    × (x.created_time ≡ slot.creation_time)
    × (x.time_in_force ≡ slot.time_in_force)
stored_new_pending_example = stored_new_pending someone 3 slot refl

abbrev amendment : ModifyOrderMessage
amendment = record {
  user_id = "u";
  order_id = "o";
  client_order_id = "c";
  new_price = 102;
  new_qty = 6;
}

abbrev request : Request
request = record { time_stamp = 3; symbol = "BTC"; request_tag = 1; body = modify_order amendment }

abbrev tracked : OrderStore
tracked = record { by_order_id = ("o", someone) ∷ []; ids_by_user = [] }

stored_rejected_modify_example :
    (x : Order) × (find "o"
        (apply (reject_modify_order request amendment OrdRejectReason.smp 9 slot) tracked)
      ≡ some x)
    × (x.status ≡ OrderStatus.rejected)
    × (x.leaves_quantity ≡ 0)
    × (x.side ≡ slot.side)
    × (x.time_in_force ≡ slot.time_in_force)
unfolding find slick_sim.Prelude.lookup
stored_rejected_modify_example =
    stored_rejected_modify request amendment OrdRejectReason.smp 9 slot tracked someone refl refl
