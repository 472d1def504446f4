-- ===== src/MatchingEngine/Fifo.antt =====
-- matching_engine/fifo_matching_engine.cpp: the front of the best level's queue, until the order's
-- quantity or the reachable book runs out. The loops take fuel, one turn a unit.
pub mod Feed
pub mod Client
pub mod Own
pub mod Loop
pub mod Ready
pub mod Match
use slick_sim.Prelude.{
  ℕ, ◌-◌, not, ◌&&◌, List, [], ◌∷◌, Option, none, some, reverse, ltb, if◌then◌else◌, min,
}
use slick_sim.Prelude.Loop.{Turn, again, finished, iterate}
use slick_sim.Common.Enums.{Side, SelfMatchPreventionMode, smp_is}
use slick_sim.Common.Reasons.{OrdRejectReason}
use slick_sim.Common.Order.{null_price}
use slick_sim.Common.Messages.{TradeSummaryInfo}
use slick_sim.OrderBook.L3.{RestingOrder, PriceLevelL3, OrderBookL3}
use slick_sim.OrderBook.State.{State, find_order}
use slick_sim.MatchingEngine.SelfMatch.{Reach, MatchCall, beyond, is_self_match, handle_self_match}
use slick_sim.MatchingEngine.Prepare.{prepare_order}
use slick_sim.MatchingEngine.Fill.{
  MatchContext, fill_resting, fill_resting_from_feed, cancel_unrestable_remainder,
}

-- Between two turns: the context, and the aggressor's quantity.
pub record Progress (B : Type 0) : Type 0 where
  pub ctx : MatchContext B
  pub qty : ℕ

-- How the loop of a client order ends: the quantity left, and whether SMP rejected it.
pub record Ending (B : Type 0) : Type 0 where
  pub reason : OrdRejectReason
  pub last : Progress B

pub record MatchResult (B : Type 0) : Type 0 where
  pub st : State B
  pub reason : OrdRejectReason
  pub summaries : List TradeSummaryInfo

-- The arguments of one `match` of market-data liquidity. `side` is the template's SIDE.
pub record FeedCall : Type 0 where
  pub side : Side
  pub order_id : ℕ
  pub price : ℕ
  pub event_time : ℕ
  pub seq_num : ℕ

-- The resting side of an order of this side.
unfoldable pub resting_side : Side → Side
resting_side Side.buy = Side.sell
resting_side Side.sell = Side.buy
resting_side Side.unknown_side = Side.buy

module _ {B : Type 0} where
  unfoldable pub start : State B → ℕ → Progress B
  start st qty = record {
    ctx = record { st = st; summaries = []; last_fill_price = null_price };
    qty = qty;
  }

  -- An order that SMP rejected is not cancelled: the caller emits the one terminal REJECTED.
  unfoldable pub close_by : OrdRejectReason → MatchCall → Progress B → MatchResult B
  close_by OrdRejectReason.smp m p = record {
    st = p.ctx.st;
    reason = OrdRejectReason.smp;
    summaries = reverse p.ctx.summaries;
  }
  close_by reason m p = record {
    st = cancel_unrestable_remainder m.order p.qty m.request_time p.ctx.st;
    reason = reason;
    summaries = reverse p.ctx.summaries;
  }

  unfoldable pub close : MatchCall → Ending B → MatchResult B
  close m e = close_by e.reason m e.last

  unfoldable pub close_if : MatchCall → Option (Ending B) → Option (MatchResult B)
  close_if m none = none
  close_if m (some e) = some (close m e)

module _ {B : Type 0} (lib : OrderBookL3 B) where
  -- A fill of the front order; a declined one ends the match.
  unfoldable pub fill_front :
      MatchCall → (price : ℕ) → RestingOrder → Progress B → Turn (Progress B) (Ending B)
  fill_front m price o p =
      let trade_qty = min p.qty o.quantity in
      let left = p.qty - trade_qty in
      let (ctx, accepted) =
        fill_resting lib m o.order_id (find_order o.order_id p.ctx.st) price trade_qty left p.ctx in
      let next : Progress B = record { ctx = ctx; qty = left } in
      if accepted
      then again next
      else finished (record { reason = OrdRejectReason.none; last = next })

  unfoldable pub meet_own : MatchCall → Option ℕ → Progress B → Turn (Progress B) (Ending B)
  meet_own m none p = finished (record { reason = OrdRejectReason.none; last = p })
  meet_own m (some own) p =
      let (st, goes_on) = handle_self_match lib m own p.ctx.st in
      let next : Progress B = record p { ctx = record (p.ctx) { st = st } } in
      if goes_on
      then again next
      else finished (record { reason = OrdRejectReason.smp; last = next })

  -- A level has an order: the source asserts it.
  unfoldable pub fifo_front :
      MatchCall → (price : ℕ) → List RestingOrder → Progress B → Turn (Progress B) (Ending B)
  fifo_front m price [] p = finished (record { reason = OrdRejectReason.none; last = p })
  fifo_front m price (o ∷ os) p =
      let full_book_order = find_order o.order_id p.ctx.st in
      if not (smp_is m.smp_mode SelfMatchPreventionMode.none)
        && is_self_match p.ctx.st m.order full_book_order
      then meet_own m full_book_order p
      else fill_front m price o p

  -- At the best level, if there is one.
  unfoldable pub fifo_at :
      MatchCall → Progress B → Option PriceLevelL3 → Turn (Progress B) (Ending B)
  fifo_at m p none = finished (record { reason = OrdRejectReason.none; last = p })
  fifo_at m p (some l) =
      if beyond m.side m.order_price l.price
      then finished (record { reason = OrdRejectReason.none; last = p })
      else fifo_front m l.price l.orders p

  -- One turn of the loop of matchOrder.
  unfoldable pub fifo_step : MatchCall → Progress B → Turn (Progress B) (Ending B)
  fifo_step m p =
      if ltb 0 p.qty
      then fifo_at m p (lib.best_level m.side p.ctx.st.l3)
      else finished (record { reason = OrdRejectReason.none; last = p })

  -- matchOrder
  unfoldable pub fifo_go :
      (fuel : ℕ) → MatchCall → State B → Option OrdRejectReason → Option (MatchResult B)
  fifo_go fuel m ready (some reason) = some (record { st = ready; reason = reason; summaries = [] })
  fifo_go fuel m ready none =
      close_if m (iterate fuel (fifo_step m) (start ready (ready.pool m.order).leaves_quantity))

  unfoldable pub fifo_match : (fuel : ℕ) → MatchCall → State B → Option (MatchResult B)
  fifo_match fuel m st =
      let (ready, done) = prepare_order Reach.queue m (lib.levels m.side st.l3) st in
      fifo_go fuel m ready done

  -- One turn of the loop of matchFeed.
  unfoldable pub feed_front :
      FeedCall → (price : ℕ) → List RestingOrder → Progress B → Turn (Progress B) (Progress B)
  feed_front f price [] p = finished p
  feed_front f price (o ∷ os) p =
      let (ctx, qty, accepted) =
        fill_resting_from_feed lib f.side f.event_time f.seq_num f.order_id o.order_id price
          (min p.qty o.quantity) p.qty p.ctx in
      let next : Progress B = record { ctx = ctx; qty = qty } in
      if accepted then again next else finished next

  unfoldable pub feed_at :
      FeedCall → Progress B → Option PriceLevelL3 → Turn (Progress B) (Progress B)
  feed_at f p none = finished p
  feed_at f p (some l) =
      if beyond f.side f.price l.price then finished p else feed_front f l.price l.orders p

  unfoldable pub feed_step : FeedCall → Progress B → Turn (Progress B) (Progress B)
  feed_step f p =
      if ltb 0 p.qty then feed_at f p (lib.best_level f.side p.ctx.st.l3) else finished p

  -- matchFeed: the book, the trade summaries and the quantity left.
  unfoldable pub fifo_match_feed : (fuel : ℕ) → FeedCall → (qty : ℕ) → State B → Option (Progress B)
  fifo_match_feed fuel f qty st = iterate fuel (feed_step f) (start st qty)
