-- ===== src/Venues/Hyperliquid/Taken.antt =====
-- What the levels of a difference do to the book, one after another.
use slick_sim.Prelude.{
  ℕ, ◌≡◌, ◌<◌, ◌+◌, ap, ◌∙◌, map, reverse, arith, true, refl, List, [], ◌∷◌, Option, none, some,
  ltb, Bool-cases, inl, inr,
}
use slick_sim.Common.Enums.{Side}
use slick_sim.OrderBook.L3.{PriceLevelL3, OrderBookL3}
use slick_sim.OrderBook.State.{State}
use slick_sim.OrderBook.Mirror.{level_at, add_l3}
use slick_sim.MatchingEngine.Fifo.{Progress}
use slick_sim.Exchange.Symbol.{Engine}
use slick_sim.Exchange.Session.{Exchange}
use slick_sim.Exchange.Requests.{on_book}
use slick_sim.Exchange.Requests.Returns.{publish_trade_summaries-book}
use slick_sim.Exchange.MarketEvents.{feed_call, printed_feed}
use slick_sim.Exchange.MarketEvents.Matched.{IsMatched, matched, joins, IsReconciled, reconciled}
use slick_sim.Venues.Coinbase.Dispatch.Answered.{Answers}
use slick_sim.Venues.Hyperliquid.{
  WireLevel, rest_phantom, match_phantom, level_found, apply_phantom_level_update, then_with,
  apply_removals, apply_changes,
}

-- A level of which nothing is left.
abbrev pub gone : ℕ → WireLevel
gone price = record { price = price; qty = 0 }

module _ {B : Type 0} (lib : OrderBookL3 B) (engine : Engine B) where
  -- What a match leaves of a level joins the back of the queue at its price, with no priority of its own.
  abbrev pub rests : Side → (id price event_time : ℕ) → ℕ → State B → State B
  rests side id price event_time = joins lib id side price event_time 0 0 true

  -- The venue's quantity of one level: at a price with no level nothing is nothing, and a quantity is
  -- matched and what is left of it rests; a level that is there is reconciled.
  abbrev pub IsTaken :
      Side
      → (id price qty event_time : ℕ) → Option PriceLevelL3
      → (before after : Exchange B) → Type 0
  IsTaken side id price qty event_time none before after =
      (qty ≡ 0 → after ≡ before)
      × (0 < qty
          → IsMatched engine (feed_call side id price event_time) qty
              (rests side id price event_time) before.book after.book)
  IsTaken side id price qty event_time (some l) before after =
      IsReconciled lib side price qty event_time 0 id true l before after

  -- The levels are taken one after another, the one at position i under the id `ids i`.
  abbrev pub AreTaken :
      (ids : ℕ → ℕ)
      → (i event_time : ℕ) → Side
      → List WireLevel
      → (before after : Exchange B) → Type 0
  AreTaken ids i event_time side [] before after = after ≡ before
  AreTaken ids i event_time side (l ∷ ls) before after =
      (mid : Exchange B) × IsTaken side (ids i) l.price l.qty event_time
        (level_at l.price (lib.levels side before.book.l3)) before mid
      × AreTaken ids (i + 1) event_time side ls mid after

module _ {B : Type 0} (lib : OrderBookL3 B) (engine : Engine B) (answers : Answers engine) where
  -- One step, and where it leads.
  abbrev pub Steps : (Exchange B → Type 0) → Option (Exchange B) → Type 0
  Steps P o = (ex : Exchange B) × (o ≡ some ex) × P ex

  rest_phantom-IsMatched :
      (side : Side) (id price qty event_time : ℕ) (ex : Exchange B) (p : Progress B)
      → engine.match_feed (feed_call side id price event_time) qty ex.book ≡ some p
      → Steps
          (λ ex'.
            IsMatched engine
              (feed_call side id price event_time)
              qty
              (rests lib engine side id price event_time)
              ex.book
              ex'.book)
          (rest_phantom lib side id price event_time ex (some p))
  unfolding rest_phantom printed_feed on_book add_l3
  rest_phantom-IsMatched side id price qty event_time ex p is =
      let f = feed_call side id price event_time in
      let m = matched engine f qty (rests lib engine side id price event_time) ex.book p is in
      let printed =
        publish_trade_summaries-book (reverse p.ctx.summaries) (record ex { book = p.ctx.st }) in
      elim (Bool-cases (ltb 0 p.qty)) [
        | inl more ↦ (let here = rw more at m in rw more (_, refl, rw printed here))
        | inr all ↦ (let here = rw all at m in rw all (_, refl, rw printed here))
      ]

  match_phantom-IsMatched :
      (side : Side) (id price qty event_time : ℕ) (ex : Exchange B)
      → Steps
          (λ ex'.
            IsMatched engine
              (feed_call side id price event_time)
              qty
              (rests lib engine side id price event_time)
              ex.book
              ex'.book)
          (match_phantom lib engine side id price qty event_time ex)
  unfolding match_phantom
  match_phantom-IsMatched side id price qty event_time ex =
      let (p, is) = answers (feed_call side id price event_time) qty ex.book in
      let (ex', e, m) = rest_phantom-IsMatched side id price qty event_time ex p is in
      (ex', ap (rest_phantom lib side id price event_time ex) is ∙ e, m)

  level_found-IsTaken :
      (side : Side) (id price qty event_time : ℕ) (l : Option PriceLevelL3) (ex : Exchange B)
      → level_at price (lib.levels side ex.book.l3) ≡ l
      → Steps
          (IsTaken lib engine side id price qty event_time l ex)
          (level_found lib engine side id price qty event_time l ex)
  unfolding level_found
  level_found-IsTaken side id price qty event_time none ex at = elim (Bool-cases (ltb 0 qty)) [
    | inl more ↦
        (let (ex', is, m) = match_phantom-IsMatched side id price qty event_time ex in
          rw more (ex', is, ((λ none_left. absurd (ground arith)), λ h. m)))
    | inr nothing ↦ rw nothing (ex, refl, ((λ h. refl), λ h. absurd (ground arith)))
  ]
  level_found-IsTaken side id price qty event_time (some l) ex at =
      (_, refl, reconciled lib side price qty event_time 0 id true l ex at)

  pub changes-AreTaken :
      (ids : ℕ → ℕ) (i event_time : ℕ) (side : Side) (ls : List WireLevel) (ex : Exchange B)
      → Steps
          (AreTaken lib engine ids i event_time side ls ex)
          (apply_changes lib engine ids i event_time side ls ex)
  unfolding apply_changes then_with apply_phantom_level_update
  changes-AreTaken ids i event_time side [] ex = (ex, refl, refl)
  changes-AreTaken ids i event_time side (l ∷ ls) ex =
      let (mid, is, one) =
        level_found-IsTaken side (ids i) l.price l.qty event_time
          (level_at l.price (lib.levels side ex.book.l3)) ex refl in
      let (ex', is', rest) = changes-AreTaken ids (i + 1) event_time side ls mid in
      rw is (ex', is', (mid, one, rest))

  pub removals-AreTaken :
      (ids : ℕ → ℕ) (i event_time : ℕ) (side : Side) (prices : List ℕ) (ex : Exchange B)
      → Steps
          (AreTaken lib engine ids i event_time side (map (gone) prices) ex)
          (apply_removals lib engine ids i event_time side prices ex)
  unfolding apply_removals then_with apply_phantom_level_update
  removals-AreTaken ids i event_time side [] ex = (ex, refl, refl)
  removals-AreTaken ids i event_time side (p ∷ ps) ex =
      let (mid, is, one) =
        level_found-IsTaken side (ids i) p 0 event_time (level_at p (lib.levels side ex.book.l3)) ex
          refl in
      let (ex', is', rest) = removals-AreTaken ids (i + 1) event_time side ps mid in
      rw is (ex', is', (mid, one, rest))
