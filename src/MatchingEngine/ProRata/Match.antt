-- ===== src/MatchingEngine/ProRata/Match.antt =====
-- matching_engine/pro_rata_matching_engine.cpp: the loops that execute an allocation, level by level. They
-- take fuel, one level a turn.
use slick_sim.Prelude.{
  ℕ, ◌-◌, Bool, true, false, not, List, [], ◌∷◌, Option, none, some, eqb, ltb, if◌then◌else◌,
}
use slick_sim.Prelude.Loop.{Turn, again, finished, iterate}
use slick_sim.Common.Enums.{SelfMatchPreventionMode, smp_is}
use slick_sim.Common.Reasons.{OrdRejectReason}
use slick_sim.OrderBook.L3.{PriceLevelL3, OrderBookL3}
use slick_sim.OrderBook.State.{State, find_order}
use slick_sim.MatchingEngine.SelfMatch.{Reach, MatchCall, beyond, is_self_match, handle_self_match}
use slick_sim.MatchingEngine.Prepare.{prepare_order}
use slick_sim.MatchingEngine.Fill.{fill_resting, fill_resting_from_feed}
use slick_sim.MatchingEngine.Fifo.{Progress, Ending, MatchResult, FeedCall, start, close_if}
use slick_sim.MatchingEngine.ProRata.{ProRataConfig, Allocation, allocate}

-- What a pass over an allocation leaves, and whether it ended the match or changed the level.
pub record Passed (B : Type 0) : Type 0 where
  pub last : Progress B
  pub stopped : Bool
  pub cancelled : Bool

module _ {B : Type 0} where
  -- `resolve` of allocate: which of the simulator's orders an allocation is about.
  unfoldable pub resolved : (resolve : Bool) → State B → ℕ → Option ℕ
  resolved resolve st id = if resolve then find_order id st else none

  -- The order of an allocation when it is filled.
  unfoldable pub filled_order : (resolve : Bool) → Allocation → State B → Option ℕ
  filled_order resolve a st = if resolve then a.order else find_order a.order_id st

  unfoldable pub after_fills : Passed B → Turn (Progress B) (Ending B)
  after_fills r =
      if r.stopped
      then finished (record { reason = OrdRejectReason.none; last = r.last })
      else again r.last

  unfoldable pub fed : Passed B → Turn (Progress B) (Progress B)
  fed r = if r.stopped then finished r.last else again r.last

module _ {B : Type 0} (lib : OrderBookL3 B) where
  unfoldable pub cancel_one : MatchCall → Option ℕ → Progress B → Progress B × Bool
  cancel_one m none p = (p, true)
  cancel_one m (some own) p =
      let (st, goes_on) = handle_self_match lib m own p.ctx.st in
      (record p { ctx = record (p.ctx) { st = st } }, goes_on)

  -- Every own order of the level is a self-match, whatever it was allocated.
  unfoldable pub cancel_own :
      MatchCall → (cancelled : Bool) → List Allocation → Progress B → Passed B
  cancel_own m cancelled [] p = record { last = p; stopped = false; cancelled = cancelled }
  cancel_own m cancelled (a ∷ as') p =
      let next = λ (c : Bool) (q : Progress B). cancel_own m c as' q in
      let (q, goes_on) = cancel_one m a.order p in
      elim (is_self_match p.ctx.st m.order a.order) [
        | true ↦ (elim goes_on [
          | true ↦ next true q
          | false ↦ record { last = q; stopped = true; cancelled = cancelled }
        ])
        | false ↦ next cancelled p
      ]

  -- The fills of an allocation in queue order; a declined one ends the match.
  unfoldable pub fill_allocations :
      MatchCall → (resolve : Bool) → (price : ℕ) → List Allocation → Progress B → Passed B
  fill_allocations m resolve price [] p = record { last = p; stopped = false; cancelled = false }
  fill_allocations m resolve price (a ∷ as') p =
      let next = λ (q : Progress B). fill_allocations m resolve price as' q in
      let left = p.qty - a.qty in
      let (ctx, accepted) =
        fill_resting lib m a.order_id (filled_order resolve a p.ctx.st) price a.qty left p.ctx in
      let q : Progress B = record { ctx = ctx; qty = left } in
      elim (eqb a.qty 0) [
        | true ↦ next p
        | false ↦ (elim accepted [
          | true ↦ next q
          | false ↦ record { last = q; stopped = true; cancelled = false }
        ])
      ]

  unfoldable pub after_own :
      MatchCall
      → (resolve : Bool) → (price : ℕ) → List Allocation
      → Passed B
      → Turn (Progress B) (Ending B)
  after_own m resolve price as' r =
      if r.stopped
      then finished (record { reason = OrdRejectReason.smp; last = r.last })
      else if r.cancelled
      then again r.last
      else after_fills (fill_allocations m resolve price as' r.last)

module _ {B : Type 0} (lib : OrderBookL3 B) (config : ProRataConfig) where
  unfoldable pub pro_rata_level :
      MatchCall → PriceLevelL3 → Progress B → Turn (Progress B) (Ending B)
  pro_rata_level m l p =
      let check_self_match = not (smp_is m.smp_mode SelfMatchPreventionMode.none) in
      let allocations = allocate config (resolved check_self_match p.ctx.st) l.orders p.qty in
      if check_self_match
      then after_own lib m check_self_match l.price allocations
          (cancel_own lib m false allocations p)
      else after_fills (fill_allocations lib m check_self_match l.price allocations p)

  unfoldable pub pro_rata_at :
      MatchCall → Progress B → Option PriceLevelL3 → Turn (Progress B) (Ending B)
  pro_rata_at m p none = finished (record { reason = OrdRejectReason.none; last = p })
  pro_rata_at m p (some l) =
      if beyond m.side m.order_price l.price
      then finished (record { reason = OrdRejectReason.none; last = p })
      else pro_rata_level m l p

  -- One turn of the loop of matchOrder.
  unfoldable pub pro_rata_step : MatchCall → Progress B → Turn (Progress B) (Ending B)
  pro_rata_step m p =
      if ltb 0 p.qty
      then pro_rata_at m p (lib.best_level m.side p.ctx.st.l3)
      else finished (record { reason = OrdRejectReason.none; last = p })

  unfoldable pub pro_rata_go :
      (fuel : ℕ) → MatchCall → State B → Option OrdRejectReason → Option (MatchResult B)
  pro_rata_go fuel m ready (some reason) =
      some (record { st = ready; reason = reason; summaries = [] })
  pro_rata_go fuel m ready none =
      close_if m (iterate fuel (pro_rata_step m) (start ready (ready.pool m.order).leaves_quantity))

  -- matchOrder
  unfoldable pub pro_rata_match : (fuel : ℕ) → MatchCall → State B → Option (MatchResult B)
  pro_rata_match fuel m st =
      let (ready, done) = prepare_order Reach.level m (lib.levels m.side st.l3) st in
      pro_rata_go fuel m ready done

  unfoldable pub feed_allocations : FeedCall → (price : ℕ) → List Allocation → Progress B → Passed B
  feed_allocations f price [] p = record { last = p; stopped = false; cancelled = false }
  feed_allocations f price (a ∷ as') p =
      let next = λ (q : Progress B). feed_allocations f price as' q in
      let (ctx, qty, accepted) =
        fill_resting_from_feed lib f.side f.event_time f.seq_num f.order_id a.order_id price a.qty
          p.qty p.ctx in
      let q : Progress B = record { ctx = ctx; qty = qty } in
      elim (eqb a.qty 0) [
        | true ↦ next p
        | false ↦ (elim accepted [
          | true ↦ next q
          | false ↦ record { last = q; stopped = true; cancelled = false }
        ])
      ]

  unfoldable pub pro_rata_feed_at :
      FeedCall → Progress B → Option PriceLevelL3 → Turn (Progress B) (Progress B)
  pro_rata_feed_at f p none = finished p
  pro_rata_feed_at f p (some l) =
      if beyond f.side f.price l.price
      then finished p
      else fed (feed_allocations f l.price (allocate config (λ id. none) l.orders p.qty) p)

  unfoldable pub pro_rata_feed_step : FeedCall → Progress B → Turn (Progress B) (Progress B)
  pro_rata_feed_step f p =
      if ltb 0 p.qty then pro_rata_feed_at f p (lib.best_level f.side p.ctx.st.l3) else finished p

  -- matchFeed: the book, the trade summaries and the quantity left.
  unfoldable pub pro_rata_match_feed :
      (fuel : ℕ) → FeedCall → (qty : ℕ) → State B → Option (Progress B)
  pro_rata_match_feed fuel f qty st = iterate fuel (pro_rata_feed_step f) (start st qty)
