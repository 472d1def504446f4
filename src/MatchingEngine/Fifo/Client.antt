-- ===== src/MatchingEngine/Fifo/Client.antt =====
-- matchOrder of the FIFO engine: what holds between two turns of the loop of a client order, and a fill
-- of the front order.
use slick_sim.Prelude.{
  ℕ, ◌+◌, ◌-◌, ◌≤◌, ◌<◌, ◌≡◌, ◌≢◌, refl, ◌∙◌, ap, false, List, ◌∷◌, arith, min, ◌⊎◌,
}
use slick_sim.Prelude.Loop.{Keeps}
use slick_sim.Common.Enums.{SelfMatchPreventionMode}
use slick_sim.Common.Reasons.{OrdRejectReason}
use slick_sim.Common.Order.{Order, null_price}
use slick_sim.Utils.Execution.{execute_order as book_fill}
use slick_sim.OrderBook.L3.{
  RestingOrder, PriceLevelL3, OrderBookL3, IsOrderBookL3, IsCurrent, holds, cut_levels,
}
use slick_sim.OrderBook.State.{find_order}
use slick_sim.OrderBook.Levels.{
  count_orders, depth, Priced, IsAbsent, Front, cut_levels-Priced, cut_levels-IsAbsent, cut-Front,
}
use slick_sim.MatchingEngine.SelfMatch.{MatchCall}
use slick_sim.MatchingEngine.Fills.{fill_resting_lem}
use slick_sim.MatchingEngine.Tape.{traded, IsTape}
use slick_sim.MatchingEngine.Fifo.{Progress, Ending, fill_front}
use slick_sim.MatchingEngine.Limit.{
  IsOutOfReach, Reached, Front-RestsOn, reachable, cut-Front-reachable,
}

-- What a fill writes to the aggressor.
book_fill_books :
    (price e ts : ℕ) (o : Order)
    → ((book_fill price e ts o).leaves_quantity ≡ o.leaves_quantity - e)
      × ((book_fill price e ts o).cum_quantity ≡ o.cum_quantity + e)
unfolding book_fill
book_fill_books price e ts o = (refl, refl)

pub other_than-Front :
    (id : ℕ) (l : PriceLevelL3) (ls : List PriceLevelL3) (o : RestingOrder) (os : List RestingOrder)
    → IsAbsent id (l ∷ ls)
    → Front l o os
    → o.order_id ≢ id
other_than-Front id l ls o os (a, as') f e =
    let here : holds id (o ∷ os) ≡ false = rw f at a in ground arith

module _ {B : Type 0} (lib : OrderBookL3 B) (laws : IsOrderBookL3 lib) (m : MatchCall) where
  open laws use {IsBook, best-head, levels-IsLevel}

  abbrev pub resting_levels : Progress B → List PriceLevelL3
  resting_levels p = lib.levels m.side p.ctx.st.l3

  -- What holds between two turns of an order that came with `qty` to fill and `cum` filled, on a
  -- side of depth `deep` with `within` inside its limit.
  pub record ClientInv (qty cum deep within : ℕ) (p : Progress B) : Type 0 where
    pub book : IsBook p.ctx.st.l3
    pub current : IsCurrent m.seq_num (lib.last_seq_num p.ctx.st.l3)
    pub tape : IsTape (Reached m.side m.order_price) p.ctx
    pub proper : Priced (λ x. x ≢ null_price) (resting_levels p)
    pub absent : IsAbsent m.order (resting_levels p)
    pub whole : traded p.ctx.summaries + p.qty ≡ qty
    pub leaves : (p.ctx.st.pool m.order).leaves_quantity ≡ p.qty
    pub filled : (p.ctx.st.pool m.order).cum_quantity ≡ cum + traded p.ctx.summaries
    pub taken : depth (resting_levels p) + traded p.ctx.summaries ≤ deep
    pub within_limit :
        m.smp_mode ≡ SelfMatchPreventionMode.none
        → reachable m.side m.order_price (resting_levels p) + traded p.ctx.summaries ≡ within

  -- The loop ends filled or out of reach, or at an own order under CANCEL_NEWEST.
  pub record ClientEnd (qty cum deep within : ℕ) (e : Ending B) : Type 0 where
    pub inv : ClientInv qty cum deep within e.last
    pub done :
        ((e.reason ≡ OrdRejectReason.none)
          × ((e.last.qty ≡ 0) ⊎ IsOutOfReach m.side m.order_price (resting_levels e.last)))
        ⊎ ((e.reason ≡ OrdRejectReason.smp) × (m.smp_mode ≡ SelfMatchPreventionMode.cancel_newest))

  abbrev pub turns : Progress B → ℕ
  turns p = count_orders (resting_levels p) + min p.qty 1

  -- A turn that starts at the front `o` of the best level `l`.
  pub record AtFront (qty cum deep within : ℕ) (p : Progress B) (l : PriceLevelL3)
      (ls : List PriceLevelL3) (o : RestingOrder) (os : List RestingOrder) : Type 0 where
    pub inv : ClientInv qty cum deep within p
    pub pos : 0 < p.qty
    pub levels : resting_levels p ≡ l ∷ ls
    pub front : Front l o os
    pub size : 0 < o.quantity
    pub reached : Reached m.side m.order_price l.price

  pub fill_front-Keeps :
      (qty cum deep within : ℕ) (p : Progress B) (l : PriceLevelL3) (ls : List PriceLevelL3)
      (o : RestingOrder) (os : List RestingOrder)
      → AtFront qty cum deep within p l ls o os
      → Keeps
          (ClientInv qty cum deep within)
          (ClientEnd qty cum deep within)
          turns
          p
          (fill_front lib m l.price o p)
  unfolding fill_front
  fill_front-Keeps qty cum deep within p l ls o os a =
      let v = a.inv in
      let pos = a.pos in
      let size = a.size in
      let lv = a.levels in
      let e = min p.qty o.quantity in
      let prices : Priced (λ x. x ≢ null_price) (l ∷ ls) = rw lv at v.proper in
      let away : IsAbsent m.order (l ∷ ls) = rw lv at v.absent in
      let rests = Front-RestsOn l ls o os e a.front (omega arith) in
      let (filled, accepted, mine) =
        fill_resting_lem lib laws (Reached m.side m.order_price) m m.side
          (find_order o.order_id p.ctx.st) o.order_id l.price e (o.quantity - e) (p.qty - e) p.ctx
          v.book v.current (omega arith) (rw lv rests)
          (other_than-Front m.order l ls o os away a.front) prices.0 a.reached v.tape in
      let after = cut_levels o.order_id e (l ∷ ls) in
      let lv' = filled.levels m.side ∙ ap (cut_levels o.order_id e) lv in
      let (deeper, fewer) = cut-Front l ls o os e a.front (omega arith) in
      let nearer =
        cut-Front-reachable m.side m.order_price l ls o os e a.reached a.front (omega arith) in
      let (left, more_filled) = book_fill_books l.price e m.event_time (p.ctx.st.pool m.order) in
      let whole = v.whole in
      let more = filled.more in
      let leaves = v.leaves in
      let had = v.filled in
      let taken : depth (l ∷ ls) + traded p.ctx.summaries ≤ deep = rw lv at v.taken in
      rw accepted (
        record {
          book = filled.book;
          current = filled.current;
          tape = filled.tape;
          proper = rw lv' (cut_levels-Priced (λ x. x ≢ null_price) o.order_id e (l ∷ ls) prices);
          absent = rw lv' (cut_levels-IsAbsent m.order o.order_id e (l ∷ ls) away);
          whole = omega arith;
          leaves = ap (λ (x : Order). x.leaves_quantity) mine ∙ omega arith;
          filled = ap (λ (x : Order). x.cum_quantity) mine ∙ omega arith;
          taken = rw lv' (omega arith);
          within_limit = λ none_mode. rw lv' (
              let had_within : reachable m.side m.order_price (l ∷ ls) + traded p.ctx.summaries
                  ≡ within =
                rw lv at v.within_limit none_mode in
              omega arith);
        },
        rw (lv', lv) (ground arith),
      )
