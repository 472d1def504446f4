-- ===== src/Venues/Hyperliquid/Applied.antt =====
-- What a difference leaves.
use slick_sim.Prelude.{
  ℕ, ◌≡◌, ◌++◌, ap, map, Bool, true, refl, false, List, [], ◌∷◌, some, Bool-cases, inl, inr,
}
use slick_sim.Common.Enums.{Side}
use slick_sim.OrderBook.L3.{OrderBookL3}
use slick_sim.OrderBook.State.{State}
use slick_sim.Exchange.Symbol.{Engine}
use slick_sim.Exchange.Session.{
  Exchange, BookSnapshot, MarketDataUpdate, book_response, book_snapshot, book_levels,
  populate_l2_snapshot, populate_l2_subscription_response,
}
use slick_sim.Venues.Coinbase.Dispatch.Answered.{Answers}
use slick_sim.Venues.Coinbase.Feed.{clear_caches}
use slick_sim.Venues.Hyperliquid.{
  WireLevel, diff, Coin, respond, set_last_update, ref_after, removed_prices, finalize_l2_event,
  end_l2_event, then_with, process_l2_book_event,
}
use slick_sim.Venues.Hyperliquid.RefLevels.{IsSorted, IsAfter, ref_after-IsAfter}
use slick_sim.Venues.Hyperliquid.Taken.{gone, AreTaken, removals-AreTaken, changes-AreTaken}

-- The frames of the new book, the newest first: a response to each channel that waited, and the book for
-- everybody unless both did.
abbrev pub frames : (l2_book_pending l2_pending : Bool) → BookSnapshot → List MarketDataUpdate
frames true true levels = book_response 2 levels ∷ (book_response 0 levels ∷ [])
frames true false levels = book_snapshot levels ∷ (book_response 0 levels ∷ [])
frames false true levels = book_snapshot levels ∷ (book_response 2 levels ∷ [])
frames false false levels = book_snapshot levels ∷ []

module _ {B : Type 0} (lib : OrderBookL3 B) where
  finalized-frames :
      (c : Coin B)
      → (finalize_l2_event lib c).ex.md_queue
        ≡ frames c.l2_book_pending c.l2_pending (book_levels lib c.ex.book) ++ c.ex.md_queue
  unfolding finalize_l2_event respond populate_l2_subscription_response populate_l2_snapshot
      book_levels
  finalized-frames c = elim (Bool-cases c.l2_book_pending) [
    | inl b ↦ elim (Bool-cases c.l2_pending) [ inl l ↦ rw (b, l) refl | inr l ↦ rw (b, l) refl ]
    | inr b ↦ elim (Bool-cases c.l2_pending) [ inl l ↦ rw (b, l) refl | inr l ↦ rw (b, l) refl ]
  ]

  finalized-book :
      (c : Coin B)
      → ((finalize_l2_event lib c).ex.book ≡ c.ex.book)
        × ((finalize_l2_event lib c).ex.last_update_time ≡ c.ex.last_update_time)
  unfolding finalize_l2_event respond populate_l2_subscription_response populate_l2_snapshot
  finalized-book c = elim (Bool-cases c.l2_book_pending) [
    | inl b ↦ elim (Bool-cases c.l2_pending) [
      | inl l ↦ rw (b, l) (refl, refl)
      | inr l ↦ rw (b, l) (refl, refl)
    ]
    | inr b ↦ elim (Bool-cases c.l2_pending) [
      | inl l ↦ rw (b, l) (refl, refl)
      | inr l ↦ rw (b, l) (refl, refl)
    ]
  ]

module _ {B : Type 0} (lib : OrderBookL3 B) (engine : Engine B) where
  -- The book took the removals of both sides and then the changes of both sides, in `taken`; the price
  -- lists follow the difference; the frames of the new book were published, no subscriber waits, and no
  -- update waits in a cache.
  pub record IsApplied (ids : ℕ → ℕ → ℕ) (event_time : ℕ) (removed_bids removed_asks : List ℕ)
      (changed_bids changed_asks : List WireLevel) (c c' : Coin B) : Type 0 where
    pub less_bids : Exchange B
    pub less_asks : Exchange B
    pub more_bids : Exchange B
    pub taken : Exchange B
    pub bids_removed :
        AreTaken lib engine
          (ids 0)
          0
          event_time
          Side.buy
          (map gone (removed_prices removed_bids c.ref_bids))
          c.ex
          less_bids
    pub asks_removed :
        AreTaken lib engine
          (ids 1)
          0
          event_time
          Side.sell
          (map gone (removed_prices removed_asks c.ref_asks))
          less_bids
          less_asks
    pub bids_changed :
        AreTaken lib engine (ids 2) 0 event_time Side.buy changed_bids less_asks more_bids
    pub asks_changed :
        AreTaken lib engine (ids 3) 0 event_time Side.sell changed_asks more_bids taken
    pub book : c'.ex.book ≡ record (taken.book) { level_cache = []; order_cache = [] }
    pub time : c'.ex.last_update_time ≡ event_time
    pub sent :
        c'.ex.md_queue
        ≡ frames c.l2_book_pending c.l2_pending (book_levels lib taken.book) ++ taken.md_queue
    pub bids : IsAfter Side.buy removed_bids changed_bids c.ref_bids c'.ref_bids
    pub asks : IsAfter Side.sell removed_asks changed_asks c.ref_asks c'.ref_asks
    pub served : (c'.l2_book_pending ≡ false) × (c'.l2_pending ≡ false)

module _ {B : Type 0} (lib : OrderBookL3 B) (engine : Engine B) (answers : Answers engine) where
  -- With an engine whose matches end, a difference is applied whole. The book takes the prices it removes,
  -- bids and then asks, with nothing left there, and then the changed levels, bids and then asks: a level
  -- at a price that the book does not have is matched and what is left of it rests, and one that is there
  -- is reconciled. The price list of each side, if it was sorted best price first and without a price
  -- twice, is so again: it has the changed prices, and of the old ones those that the difference does not
  -- remove. The new book is published to the subscribers that waited and, unless both channels did, to
  -- everybody; no subscriber waits then and no update waits in a cache.
  pub process_l2_book_event-IsApplied :
      (ids : ℕ → ℕ → ℕ) (event_time : ℕ) (removed_bids removed_asks : List ℕ)
      (changed_bids changed_asks : List WireLevel) (c : Coin B)
      → IsSorted Side.buy c.ref_bids
      → IsSorted Side.sell c.ref_asks
      → (c' : Coin B) × (process_l2_book_event lib engine ids event_time
            (diff removed_bids removed_asks changed_bids changed_asks)
            c
          ≡ some c')
        × IsApplied lib engine ids event_time removed_bids removed_asks changed_bids changed_asks c
            c'
  unfolding process_l2_book_event then_with end_l2_event clear_caches set_last_update
      finalize_l2_event
  process_l2_book_event-IsApplied ids event_time removed_bids removed_asks changed_bids changed_asks
        c sb sa =
      let (ex0, is0, a0) =
        removals-AreTaken lib engine answers (ids 0) 0 event_time Side.buy
          (removed_prices removed_bids c.ref_bids) c.ex in
      let (ex1, is1, a1) =
        removals-AreTaken lib engine answers (ids 1) 0 event_time Side.sell
          (removed_prices removed_asks c.ref_asks) ex0 in
      let (ex2, is2, a2) =
        changes-AreTaken lib engine answers (ids 2) 0 event_time Side.buy changed_bids ex1 in
      let (ex3, is3, a3) =
        changes-AreTaken lib engine answers (ids 3) 0 event_time Side.sell changed_asks ex2 in
      let done : Coin B = record c {
        ex = record ex3 { last_update_time = event_time };
        ref_bids = ref_after Side.buy removed_bids changed_bids c.ref_bids;
        ref_asks = ref_after Side.sell removed_asks changed_asks c.ref_asks;
      } in
      let (book, time) = finalized-book lib done in
      rw (is0, is1, is2, is3)
        (
          _,
          refl,
          record {
            less_bids = ex0;
            less_asks = ex1;
            more_bids = ex2;
            taken = ex3;
            bids_removed = a0;
            asks_removed = a1;
            bids_changed = a2;
            asks_changed = a3;
            book = ap (λ (st : State B). record st { level_cache = []; order_cache = [] }) book;
            time = time;
            sent = finalized-frames lib done;
            bids = ref_after-IsAfter Side.buy removed_bids changed_bids c.ref_bids sb;
            asks = ref_after-IsAfter Side.sell removed_asks changed_asks c.ref_asks sa;
            served = (refl, refl);
          },
        )
