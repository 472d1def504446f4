-- ===== src/Exchange/Symbol.antt =====
-- exchange/symbol.cpp: a client's order on one instrument, over the venue's matching engine as an
-- interface. `now` is the wall clock.
pub mod Cancel
pub mod Place
use slick_sim.Prelude.{
  ℕ, Bool, true, false, not, ◌&&◌, ◌||◌, List, [], ◌∷◌, Option, none, some, eqb, ltb, if◌then◌else◌,
}
use slick_sim.Common.Enums.{SelfMatchPreventionMode}
use slick_sim.Common.Reasons.{OrdRejectReason, ord_reject_reason_code}
use slick_sim.Common.Order.{Order, rests_remainder}
use slick_sim.Common.MarketData.{MdLevel}
use slick_sim.OrderBook.L3.{OrderBookL3}
use slick_sim.OrderBook.State.{State, write, free_order}
use slick_sim.OrderBook.Operations.{
  draw_priority, add_order as rest_order, modify_order as amend_order, delete_order,
}
use slick_sim.MatchingEngine.Publish.{publish_order_cancel}
use slick_sim.MatchingEngine.SelfMatch.{MatchCall}
use slick_sim.MatchingEngine.Fifo.{
  FeedCall, Progress, MatchResult, resting_side, fifo_match, fifo_match_feed,
}
use slick_sim.MatchingEngine.ProRata.{ProRataConfig}
use slick_sim.MatchingEngine.ProRata.Match.{pro_rata_match, pro_rata_match_feed}

-- The engine of a venue; `none` is a loop that did not end within its fuel.
pub record Engine (B : Type 0) : Type 0 where
  pub match_order : MatchCall → State B → Option (MatchResult B)
  pub match_feed : FeedCall → (qty : ℕ) → State B → Option (Progress B)

abbrev pub fifo_engine : {B : Type 0} → OrderBookL3 B → (fuel : ℕ) → Engine B
fifo_engine lib fuel = record {
  match_order = fifo_match lib fuel;
  match_feed = fifo_match_feed lib fuel;
}

abbrev pub pro_rata_engine : {B : Type 0} → OrderBookL3 B → ProRataConfig → (fuel : ℕ) → Engine B
pro_rata_engine lib config fuel = record {
  match_order = pro_rata_match lib config fuel;
  match_feed = pro_rata_match_feed lib config fuel;
}

unfoldable pub is_none : OrdRejectReason → Bool
is_none reason = eqb (ord_reject_reason_code reason) (ord_reject_reason_code OrdRejectReason.none)

-- F_END_EVENT on the last level update, if there is one.
unfoldable pub end_event : List MdLevel → List MdLevel
end_event [] = []
end_event (l ∷ ls) = record l { flags = record (l.flags) { end_event = true } } ∷ ls

module _ {B : Type 0} where
  unfoldable pub new_call : SelfMatchPreventionMode → (id request_time : ℕ) → State B → MatchCall
  new_call smp_mode id request_time st =
      let o = st.pool id in
      record {
        side = resting_side o.side;
        order = id;
        order_price = o.price;
        order_qty = o.quantity;
        request_time = request_time;
        event_time = o.created_time;
        seq_num = 0;
        smp_mode = smp_mode;
      }

  unfoldable pub amend_call :
      SelfMatchPreventionMode → (id new_price new_qty request_time : ℕ) → State B → MatchCall
  amend_call smp_mode id new_price new_qty request_time st =
      let o = st.pool id in
      record {
        side = resting_side o.side;
        order = id;
        order_price = new_price;
        order_qty = new_qty;
        request_time = request_time;
        event_time = o.last_update_time;
        seq_num = 0;
        smp_mode = smp_mode;
      }

  -- A new price or a larger quantity loses the order its place.
  unfoldable pub requeues : (id new_price new_qty : ℕ) → State B → Bool
  requeues id new_price new_qty st =
      not (eqb new_price (st.pool id).price) || ltb (st.pool id).quantity new_qty

  unfoldable pub free_filled : ℕ → State B → State B
  free_filled id st = if eqb (st.pool id).leaves_quantity 0 then free_order id st else st

module _ {B : Type 0} (lib : OrderBookL3 B) where
  -- What addOrder does with a matched order: it rests, or it goes back to the pool.
  unfoldable pub place : (id : ℕ) → MatchResult B → MatchResult B
  place id r =
      let o = r.st.pool id in
      if is_none r.reason && (ltb 0 o.leaves_quantity && rests_remainder o)
      then record r { st = rest_order lib id o.created_time 0 true r.st }
      else record r {
        st = free_order id (record (r.st) { level_cache = end_event r.st.level_cache });
      }

  unfoldable pub place_if : (id : ℕ) → Option (MatchResult B) → Option (MatchResult B)
  place_if id none = none
  place_if id (some r) = some (place id r)

  -- addOrder
  unfoldable pub add_order :
      Engine B → SelfMatchPreventionMode → (id request_time : ℕ) → State B → Option (MatchResult B)
  add_order engine smp_mode id request_time st =
      place_if id (engine.match_order (new_call smp_mode id request_time st) st)

  -- What modifyOrder does with a matched amendment.
  unfoldable pub amend : (id new_price now : ℕ) → (requeue : Bool) → MatchResult B → MatchResult B
  amend id new_price now requeue r =
      let stamped = write id (λ o. record o { last_update_time = now }) r.st in
      let queued = if requeue then draw_priority id stamped else stamped in
      let amended =
        if is_none r.reason
        then amend_order lib id new_price (queued.pool id).quantity now 0 true queued
        else stamped in
      record r { st = free_filled id amended }

  unfoldable pub amend_if :
      (id new_price now : ℕ) → (requeue : Bool) → Option (MatchResult B) → Option (MatchResult B)
  amend_if id new_price now requeue none = none
  amend_if id new_price now requeue (some r) = some (amend id new_price now requeue r)

  -- modifyOrder
  unfoldable pub modify_order :
      Engine B
      → SelfMatchPreventionMode
      → (id new_price new_qty request_time now : ℕ) → State B
      → Option (MatchResult B)
  modify_order engine smp_mode id new_price new_qty request_time now st =
      amend_if id new_price now (requeues id new_price new_qty st)
        (engine.match_order (amend_call smp_mode id new_price new_qty request_time st) st)

  -- cancelOrder
  unfoldable pub cancel_order : (id request_time now : ℕ) → State B → State B
  cancel_order id request_time now st =
      let stamped = write id (λ o. record o { last_update_time = now }) st in
      let gone = delete_order lib id now 0 true stamped in
      free_order id (publish_order_cancel id request_time gone)
