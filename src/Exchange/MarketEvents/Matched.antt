-- ===== src/Exchange/MarketEvents/Matched.antt =====
-- What the market's orders and levels do to the book, said of the library's book and of the engine alone.
use slick_sim.Prelude.{
  ℕ, ◌+◌, ◌-◌, ◌≡◌, ◌<◌, refl, Bool, true, false, List, [], ◌∷◌, some, reverse, arith, ltb,
  if◌then◌else◌,
}
use slick_sim.Prelude.Int.{pos, pos_part, ◌-ℤ◌}
use slick_sim.Common.Enums.{Side}
use slick_sim.OrderBook.L3.{PriceLevelL3, OrderBookL3}
use slick_sim.OrderBook.State.{State, contains}
use slick_sim.OrderBook.Operations.{settle}
use slick_sim.OrderBook.Mirror.{level_at, get_md_level_qty, add_l3, modify_l3, add_book_order}
use slick_sim.MatchingEngine.Fifo.{FeedCall, Progress}
use slick_sim.Exchange.TradedCredit.{take_traded_qty}
use slick_sim.Exchange.Symbol.{Engine}
use slick_sim.Exchange.Session.{Exchange}
use slick_sim.Exchange.Requests.{on_book}
use slick_sim.Exchange.MarketEvents.{
  PhantomReduction, choose_reductions, offset_target, is_last, apply_reductions, reconcile_level,
  reconcile_found, reconcile_phantom_qty,
}

module _ {B : Type 0} (engine : Engine B) where
  -- The quantity is matched with the book, and what is left of it rests in the book that the match leaves.
  abbrev pub IsMatched :
      FeedCall → ℕ → (rests : ℕ → State B → State B) → (before after : State B) → Type 0
  IsMatched f qty rests before after =
      (p : Progress B) × (engine.match_feed f qty before ≡ some p)
      × ((0 < p.qty → after ≡ rests p.qty p.ctx.st) × (p.qty ≡ 0 → after ≡ p.ctx.st))

  pub matched :
      (f : FeedCall) (qty : ℕ) (rests : ℕ → State B → State B) (before : State B) (p : Progress B)
      → engine.match_feed f qty before ≡ some p
      → IsMatched f qty rests before (if ltb 0 p.qty then rests p.qty p.ctx.st else p.ctx.st)
  matched f qty rests before p is = (
    p,
    is,
    (
      λ more. (let on : ltb 0 p.qty ≡ true = ground arith in rw on refl),
      λ all. (let off : ltb 0 p.qty ≡ false = ground arith in rw off refl),
    ),
  )

module _ {B : Type 0} (lib : OrderBookL3 B) where
  -- An order of the market's joins the book, with a priority that is given or with the next one.
  abbrev pub joins :
      (id : ℕ) → Side → (price timestamp priority seq_num : ℕ) → Bool → ℕ → State B → State B
  joins id side price timestamp priority seq_num last qty st =
      settle st (lib.add_order id side price qty timestamp priority seq_num last st.l3)

  abbrev pub joins_next :
      (id : ℕ) → Side → (price timestamp seq_num : ℕ) → Bool → ℕ → State B → State B
  joins_next id side price timestamp seq_num last qty st =
      joins id side price timestamp (st.next_priority + 1) seq_num last qty
        (record st { next_priority = st.next_priority + 1 })

  -- The orders take their new quantities in turn, and the last change carries the end of the event.
  abbrev pub reduced :
      (price timestamp seq_num : ℕ) → Bool → List PhantomReduction → State B → State B
  reduced price timestamp seq_num last [] st = st
  reduced price timestamp seq_num last (r ∷ []) st =
      settle st
        (lib.modify_order r.order_id price r.new_qty timestamp r.priority seq_num last st.l3)
  reduced price timestamp seq_num last (r ∷ (s ∷ rs)) st =
      reduced price timestamp seq_num last (s ∷ rs) (
        settle st
          (lib.modify_order r.order_id price r.new_qty timestamp r.priority seq_num false st.l3))

  apply_reductions-reduced :
      (price timestamp seq_num : ℕ) (last : Bool) (rs : List PhantomReduction) (st : State B)
      → apply_reductions lib price timestamp seq_num last rs st
        ≡ reduced price timestamp seq_num last rs st
  unfolding apply_reductions modify_l3 is_last
  apply_reductions-reduced price timestamp seq_num last [] st = refl
  apply_reductions-reduced price timestamp seq_num last (r ∷ []) st = refl
  apply_reductions-reduced price timestamp seq_num last (r ∷ (s ∷ rs)) st =
      apply_reductions-reduced price timestamp seq_num last (s ∷ rs) _

  -- The market's part of a level becomes the quantity that the feed reports, less what was traded and not
  -- reported yet: more of it joins the back of the queue, less is taken from the market's orders.
  abbrev pub IsReconciled :
      Side
      → (price target_qty event_time seq_num id : ℕ) → Bool
      → PriceLevelL3
      → (before after : Exchange B) → Type 0
  IsReconciled side price target_qty event_time seq_num id last l before after =
      let (unreflected, credits) = take_traded_qty side price event_time before.credits in
      let reported = pos (target_qty - unreflected) in
      let shown = get_md_level_qty price before.book in
      let more = pos_part (reported -ℤ shown) in
      let less = pos_part (shown -ℤ reported) in
      (after.credits ≡ credits)
      × (0 < more → after.book ≡ joins_next id side price event_time seq_num last more before.book)
      × (more ≡ 0
          → after.book
            ≡ reduced price event_time seq_num last
                (choose_reductions (λ j. contains j before.book.orders) less (reverse l.orders))
                before.book)

  offset-monus : (t u : ℕ) → offset_target t u ≡ t - u
  unfolding offset_target
  offset-monus t u = ground arith

  reconcile_level-reduced :
      (side : Side) (price target unreflected event_time seq_num id : ℕ) (last : Bool)
      (l : PriceLevelL3) (st : State B)
      → let after =
          reconcile_level lib side price
            (offset_target target unreflected)
            event_time
            seq_num
            id
            last
            l
            st in
        let shown = get_md_level_qty price st in
        let more = pos_part (pos (target - unreflected) -ℤ shown) in
        (0 < more → after ≡ joins_next id side price event_time seq_num last more st)
        × (more ≡ 0
            → after
              ≡ reduced price event_time seq_num last
                  (choose_reductions
                    (λ j. contains j st.orders)
                    (pos_part (shown -ℤ pos (target - unreflected)))
                    (reverse l.orders))
                  st)
  unfolding reconcile_level add_book_order add_l3
  reconcile_level-reduced side price target unreflected event_time seq_num id last l st =
      let more = pos_part (pos (target - unreflected) -ℤ get_md_level_qty price st) in
      (
        λ some_more.
            (let on : ltb 0 more ≡ true = ground arith in
              rw (offset-monus target unreflected, on) refl),
        λ no_more.
            (let off : ltb 0 more ≡ false = ground arith in
              rw (offset-monus target unreflected, off)
                (apply_reductions-reduced price event_time seq_num last _ st)),
      )

  pub reconciled :
      (side : Side) (price target event_time seq_num id : ℕ) (last : Bool) (l : PriceLevelL3)
      (ex : Exchange B)
      → level_at price (lib.levels side ex.book.l3) ≡ some l
      → IsReconciled side price target event_time seq_num id last l ex
          (reconcile_phantom_qty lib side price target event_time seq_num id last ex)
  unfolding reconcile_phantom_qty reconcile_found on_book
  reconciled side price target event_time seq_num id last l ex found =
      let (unreflected, credits) = take_traded_qty side price event_time ex.credits in
      let (joined, cut) =
        reconcile_level-reduced side price target unreflected event_time seq_num id last l
          ex.book in
      rw found (refl, joined, cut)
