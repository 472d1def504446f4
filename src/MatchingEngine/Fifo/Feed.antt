-- ===== src/MatchingEngine/Fifo/Feed.antt =====
-- matchFeed of the FIFO engine: market-data liquidity against the book.
use slick_sim.Prelude.{
  ℕ, ◌+◌, ◌-◌, ◌<◌, ◌≡◌, ◌≢◌, refl, ◌∙◌, ap, List, [], ◌∷◌, some, arith, ltb, All, head?, min,
  Bool-cases, ◌⊎◌, inl, inr, ltb→lt,
}
use slick_sim.Prelude.Loop.{Keeps, iterate_returns}
use slick_sim.Common.Order.{null_price}
use slick_sim.OrderBook.L3.{
  RestingOrder, PriceLevelL3, OrderBookL3, IsOrderBookL3, IsLevel, IsCurrent, cut_levels,
}
use slick_sim.OrderBook.State.{State}
use slick_sim.OrderBook.Levels.{count_orders, depth, Priced, Front, cut_levels-Priced, cut-Front}
use slick_sim.MatchingEngine.SelfMatch.{beyond}
use slick_sim.MatchingEngine.Fills.{fill_resting_from_feed_lem}
use slick_sim.MatchingEngine.Tape.{traded, IsTape}
use slick_sim.MatchingEngine.Limit.{IsOutOfReach, Reached, Front-RestsOn}
use slick_sim.MatchingEngine.Fifo.{
  Progress, FeedCall, start, feed_front, feed_at, feed_step, fifo_match_feed,
}

module _ {B : Type 0} (lib : OrderBookL3 B) (laws : IsOrderBookL3 lib) (f : FeedCall) where
  open laws use {IsBook, best-head, levels-IsLevel}

  abbrev pub side_levels : Progress B → List PriceLevelL3
  side_levels p = lib.levels f.side p.ctx.st.l3

  -- What holds between two turns, for an incoming quantity `qty` and a book of depth `deep`.
  pub record FeedInv (qty deep : ℕ) (p : Progress B) : Type 0 where
    pub book : IsBook p.ctx.st.l3
    pub current : IsCurrent f.seq_num (lib.last_seq_num p.ctx.st.l3)
    pub tape : IsTape (Reached f.side f.price) p.ctx
    pub proper : Priced (λ x. x ≢ null_price) (side_levels p)
    pub whole : traded p.ctx.summaries + p.qty ≡ qty
    pub taken : depth (side_levels p) + traded p.ctx.summaries ≡ deep

  pub record FeedEnd (qty deep : ℕ) (p : Progress B) : Type 0 where
    pub inv : FeedInv qty deep p
    pub done : (p.qty ≡ 0) ⊎ IsOutOfReach f.side f.price (side_levels p)

  abbrev turns : Progress B → ℕ
  turns p = count_orders (side_levels p) + min p.qty 1

  feed_front-Keeps :
      (qty deep : ℕ) (p : Progress B) (l : PriceLevelL3) (ls : List PriceLevelL3) (o : RestingOrder)
      (os : List RestingOrder)
      → FeedInv qty deep p
      → 0 < p.qty
      → side_levels p ≡ l ∷ ls
      → Front l o os
      → 0 < o.quantity
      → Reached f.side f.price l.price
      → Keeps (FeedInv qty deep) (FeedEnd qty deep) turns p (feed_front lib f l.price (o ∷ os) p)
  unfolding feed_front
  feed_front-Keeps qty deep p l ls o os v pos lv fr some_quantity reached =
      let e = min p.qty o.quantity in
      let prices : Priced (λ x. x ≢ null_price) (l ∷ ls) = rw lv at v.proper in
      let rests = Front-RestsOn l ls o os e fr (omega arith) in
      let (filled, qty', accepted) =
        fill_resting_from_feed_lem lib laws (Reached f.side f.price) f.side f.side f.event_time
          f.seq_num f.order_id o.order_id l.price e (o.quantity - e) p.qty p.ctx v.book v.current
          (omega arith) (rw lv rests) prices.0 reached v.tape in
      let after = cut_levels o.order_id e (l ∷ ls) in
      let lv' = filled.levels f.side ∙ ap (cut_levels o.order_id e) lv in
      let (deeper, fewer) = cut-Front l ls o os e fr (omega arith) in
      let whole = v.whole in
      let more = filled.more in
      let taken : depth (l ∷ ls) + traded p.ctx.summaries ≡ deep = rw lv at v.taken in
      rw accepted (
        record {
          book = filled.book;
          current = filled.current;
          tape = filled.tape;
          proper = rw lv' (cut_levels-Priced (λ x. x ≢ null_price) o.order_id e (l ∷ ls) prices);
          whole = omega arith;
          taken = rw lv' (omega arith);
        },
        rw (lv', lv, qty') (ground arith),
      )

  feed_at-Keeps :
      (qty deep : ℕ) (p : Progress B) (ls : List PriceLevelL3)
      → FeedInv qty deep p
      → 0 < p.qty
      → side_levels p ≡ ls
      → All IsLevel ls
      → Keeps (FeedInv qty deep) (FeedEnd qty deep) turns p (feed_at lib f p (head? ls))
  unfolding feed_at
  feed_at-Keeps qty deep p [] v pos lv w = record { inv = v; done = inr (rw lv tt) }
  feed_at-Keeps qty deep p (l ∷ ls) v pos lv (w, ws) =
      elim (Bool-cases (beyond f.side f.price l.price)) [
        | inl far ↦ rw far (record { inv = v; done = inr (rw lv far) })
        | inr near ↦ rw near (at l.orders refl near)
      ]
    where
      at :
          (os : List RestingOrder)
          → l.orders ≡ os
          → Reached f.side f.price l.price
          → Keeps (FeedInv qty deep) (FeedEnd qty deep) turns p (feed_front lib f l.price os p)
      at [] e near = absurd (w.nonempty e)
      at (o ∷ os) e near =
          let sizes : All (λ (x : RestingOrder). 0 < x.quantity) (o ∷ os) = rw e at w.positive in
          feed_front-Keeps qty deep p l ls o os v pos lv e sizes.0 near

  feed_step-Keeps :
      (qty deep : ℕ) (p : Progress B)
      → FeedInv qty deep p
      → Keeps (FeedInv qty deep) (FeedEnd qty deep) turns p (feed_step lib f p)
  unfolding feed_step
  feed_step-Keeps qty deep p v = elim (Bool-cases (ltb 0 p.qty)) [
    | inl more ↦
        rw (more, best-head f.side p.ctx.st.l3 v.book)
          (feed_at-Keeps qty deep p (side_levels p) v (ltb→lt 0 p.qty more) refl
            (levels-IsLevel f.side p.ctx.st.l3 v.book))
    | inr nothing ↦ rw nothing (record { inv = v; done = inl (ground arith) })
  ]

  -- On a book that keeps the laws of the L3 book and has no level at the null price, with a
  -- sequence number that is not behind, and with more fuel than resting orders on the opposite side
  -- plus one, the feed match returns. The traded quantity and the quantity left add up to the
  -- incoming one; the side lost exactly the traded depth; every summary is at a price within the
  -- limit and its legs balance; and a quantity is left only when no level within the limit is.
  pub fifo_match_feed-FeedEnd :
      (fuel qty : ℕ) (st : State B)
      → IsBook st.l3
      → IsCurrent f.seq_num (lib.last_seq_num st.l3)
      → Priced (λ x. x ≢ null_price) (lib.levels f.side st.l3)
      → count_orders (lib.levels f.side st.l3) + 1 < fuel
      → (p : Progress B) × (fifo_match_feed lib fuel f qty st ≡ some p)
        × FeedEnd qty (depth (lib.levels f.side st.l3)) p
  unfolding fifo_match_feed start
  fifo_match_feed-FeedEnd fuel qty st b c proper enough =
      let deep = depth (lib.levels f.side st.l3) in
      iterate_returns (FeedInv qty deep) (FeedEnd qty deep) turns (feed_step lib f)
        (feed_step-Keeps qty deep) fuel (start st qty)
        (record {
          book = b;
          current = c;
          tape = record { summaries = tt; last = refl; priced = tt };
          proper = proper;
          whole = omega arith;
          taken = omega arith;
        })
        (omega arith)
