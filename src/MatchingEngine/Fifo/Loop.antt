-- ===== src/MatchingEngine/Fifo/Loop.antt =====
-- matchOrder of the FIFO engine: the loop of a client order returns.
use slick_sim.Prelude.{
  ℕ, ◌+◌, ◌<◌, ◌≡◌, ◌≢◌, refl, Bool, true, false, not, ◌&&◌, List, [], ◌∷◌, Option, none, some,
  arith, ltb, All, head?, Bool-cases, inl, inr, ltb→lt,
}
use slick_sim.Prelude.Loop.{iterate, Keeps, iterate_returns}
use slick_sim.Common.Enums.{SelfMatchPreventionMode, smp_is}
use slick_sim.Common.Order.{null_price}
use slick_sim.OrderBook.L3.{
  RestingOrder, PriceLevelL3, OrderBookL3, IsOrderBookL3, IsLevel, IsCurrent,
}
use slick_sim.OrderBook.State.{State, find_order}
use slick_sim.OrderBook.Levels.{count_orders, depth, Priced, IsAbsent}
use slick_sim.MatchingEngine.SelfMatch.{MatchCall, beyond, is_self_match}
use slick_sim.MatchingEngine.Fifo.{
  Progress, Ending, start, meet_own, fifo_front, fifo_at, fifo_step,
}
use slick_sim.MatchingEngine.Limit.{Reached, reachable}
use slick_sim.MatchingEngine.Fifo.Client.{
  ClientInv, ClientEnd, AtFront, resting_levels, turns, fill_front-Keeps,
}
use slick_sim.MatchingEngine.Fifo.Own.{meet_own-Keeps}

module _ {B : Type 0} (lib : OrderBookL3 B) (laws : IsOrderBookL3 lib) (m : MatchCall) where
  open laws use {IsBook, best-head, levels-IsLevel}

  null_is_other : (id : ℕ) (st : State B) (on : Bool) → (on && is_self_match st id none) ≡ true → ⊥
  unfolding is_self_match
  null_is_other id st on h = ground arith

  smp_on : (off own : Bool) → (not off && own) ≡ true → off ≡ false
  smp_on off own h = ground arith

  find_order_self : (id j : ℕ) (st : State B) → find_order id st ≡ some j → j ≡ id
  unfolding find_order
  find_order_self id j st e = ground arith

  fifo_front-Keeps :
      (qty cum deep within : ℕ) (p : Progress B) (l : PriceLevelL3) (ls : List PriceLevelL3)
      (o : RestingOrder) (os : List RestingOrder)
      → AtFront lib laws m qty cum deep within p l ls o os
      → Keeps
          (ClientInv lib laws m qty cum deep within)
          (ClientEnd lib laws m qty cum deep within)
          (turns lib laws m)
          p
          (fifo_front lib m l.price (o ∷ os) p)
  unfolding fifo_front
  fifo_front-Keeps qty cum deep within p l ls o os a =
      let own = find_order o.order_id p.ctx.st in
      let on = smp_is m.smp_mode SelfMatchPreventionMode.none in
      elim (Bool-cases (not on && is_self_match p.ctx.st m.order own)) [
        | inl met ↦ rw met (own_keeps (find_order o.order_id p.ctx.st) refl met)
        | inr other ↦ rw other (fill_front-Keeps lib laws m qty cum deep within p l ls o os a)
      ]
    where
      own_keeps :
          (own : Option ℕ)
          → find_order o.order_id p.ctx.st ≡ own
          → (not (smp_is m.smp_mode SelfMatchPreventionMode.none)
              && is_self_match p.ctx.st m.order (find_order o.order_id p.ctx.st))
            ≡ true
          → Keeps
              (ClientInv lib laws m qty cum deep within)
              (ClientEnd lib laws m qty cum deep within)
              (turns lib laws m)
              p
              (meet_own lib m own p)
      own_keeps none e met = absurd (null_is_other m.order p.ctx.st (not on) (rw e at met))
        where
          on : Bool
          on = smp_is m.smp_mode SelfMatchPreventionMode.none
      own_keeps (some j) e met = rw (find_order_self o.order_id j p.ctx.st e) (
          meet_own-Keeps lib laws m qty cum deep within p l ls o os m.smp_mode refl
            (smp_on (smp_is m.smp_mode SelfMatchPreventionMode.none) _ met) a)

  fifo_at-Keeps :
      (qty cum deep within : ℕ) (p : Progress B) (ls : List PriceLevelL3)
      → ClientInv lib laws m qty cum deep within p
      → 0 < p.qty
      → resting_levels lib laws m p ≡ ls
      → All IsLevel ls
      → Keeps
          (ClientInv lib laws m qty cum deep within)
          (ClientEnd lib laws m qty cum deep within)
          (turns lib laws m)
          p
          (fifo_at lib m p (head? ls))
  unfolding fifo_at
  fifo_at-Keeps qty cum deep within p [] v pos lv w = record {
    inv = v;
    done = inl (refl, inr (rw lv tt));
  }
  fifo_at-Keeps qty cum deep within p (l ∷ ls) v pos lv (w, ws) =
      elim (Bool-cases (beyond m.side m.order_price l.price)) [
        | inl far ↦ rw far (record { inv = v; done = inl (refl, inr (rw lv far)) })
        | inr near ↦ rw near (at l.orders refl near)
      ]
    where
      at :
          (os : List RestingOrder)
          → l.orders ≡ os
          → Reached m.side m.order_price l.price
          → Keeps
              (ClientInv lib laws m qty cum deep within)
              (ClientEnd lib laws m qty cum deep within)
              (turns lib laws m)
              p
              (fifo_front lib m l.price os p)
      at [] e near = absurd (w.nonempty e)
      at (o ∷ os) e near =
          let sizes : All (λ (x : RestingOrder). 0 < x.quantity) (o ∷ os) = rw e at w.positive in
          fifo_front-Keeps qty cum deep within p l ls o os
            (record { inv = v; pos = pos; levels = lv; front = e; size = sizes.0; reached = near })

  fifo_step-Keeps :
      (qty cum deep within : ℕ) (p : Progress B)
      → ClientInv lib laws m qty cum deep within p
      → Keeps
          (ClientInv lib laws m qty cum deep within)
          (ClientEnd lib laws m qty cum deep within)
          (turns lib laws m)
          p
          (fifo_step lib m p)
  unfolding fifo_step
  fifo_step-Keeps qty cum deep within p v = elim (Bool-cases (ltb 0 p.qty)) [
    | inl more ↦
        rw (more, best-head m.side p.ctx.st.l3 v.book)
          (fifo_at-Keeps qty cum deep within p (resting_levels lib laws m p) v (ltb→lt 0 p.qty more)
            refl (levels-IsLevel m.side p.ctx.st.l3 v.book))
    | inr nothing ↦ rw nothing (record { inv = v; done = inl (refl, inl (ground arith)) })
  ]

  -- The loop returns with one turn for each resting order of the side and two more.
  pub fifo_loop :
      (fuel : ℕ) (st : State B)
      → IsBook st.l3
      → IsCurrent m.seq_num (lib.last_seq_num st.l3)
      → Priced (λ x. x ≢ null_price) (lib.levels m.side st.l3)
      → IsAbsent m.order (lib.levels m.side st.l3)
      → count_orders (lib.levels m.side st.l3) + 1 < fuel
      → let o = st.pool m.order in
        (e : Ending B) × (iterate fuel (fifo_step lib m) (start st o.leaves_quantity) ≡ some e)
        × ClientEnd lib laws m o.leaves_quantity o.cum_quantity
            (depth (lib.levels m.side st.l3))
            (reachable m.side m.order_price (lib.levels m.side st.l3))
            e
  unfolding start
  fifo_loop fuel st b c proper away enough =
      let o = st.pool m.order in
      let deep = depth (lib.levels m.side st.l3) in
      let within = reachable m.side m.order_price (lib.levels m.side st.l3) in
      iterate_returns (ClientInv lib laws m o.leaves_quantity o.cum_quantity deep within)
        (ClientEnd lib laws m o.leaves_quantity o.cum_quantity deep within) (turns lib laws m)
        (fifo_step lib m) (fifo_step-Keeps o.leaves_quantity o.cum_quantity deep within) fuel
        (start st o.leaves_quantity)
        (record {
          book = b;
          current = c;
          tape = record { summaries = tt; last = refl; priced = tt };
          proper = proper;
          absent = away;
          whole = omega arith;
          leaves = refl;
          filled = omega arith;
          taken = omega arith;
          within_limit = λ none_mode. omega arith;
        })
        (omega arith)
