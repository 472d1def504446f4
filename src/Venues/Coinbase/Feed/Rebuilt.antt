-- ===== src/Venues/Coinbase/Feed/Rebuilt.antt =====
-- What a level snapshot leaves.
use slick_sim.Prelude.{
  ℕ, ◌≡◌, ◌+◌, ◌++◌, ◌<◌, All, Bool, false, List, [], ◌∷◌, reverse, if◌then◌else◌,
}
use slick_sim.OrderBook.L3.{OrderBookL3}
use slick_sim.OrderBook.State.{State}
use slick_sim.OrderBook.Mirror.{SimOrder, sim_orders}
use slick_sim.Exchange.MarketEvents.Matched.{IsMatched, joins, joins_next}
use slick_sim.Exchange.Symbol.{Engine}
use slick_sim.Exchange.Session.{
  Exchange, MarketDataUpdate, book_response, book_snapshot, book_levels, TradeSummary,
  trade_summary,
}
use slick_sim.Exchange.MarketEvents.{feed_call}
use slick_sim.Venues.Coinbase.{FeedItem}
use slick_sim.Venues.Coinbase.Feed.{Feed, is_last_level}

module _ {B : Type 0} (lib : OrderBookL3 B) where
  abbrev pub book_frame : (channel : ℕ) → (pending : Bool) → Exchange B → MarketDataUpdate
  book_frame channel pending ex =
      if pending
      then book_response channel (book_levels lib ex.book)
      else book_snapshot (book_levels lib ex.book)

  -- The simulator's own orders that have a quantity left, put into an empty book again.
  abbrev pub rejoined : List SimOrder → State B → State B
  rejoined [] st = st
  rejoined (o ∷ os) st =
      rejoined os (joins lib o.id o.side o.price o.timestamp o.priority 0 false o.qty st)

  abbrev pub emptied : State B → State B
  emptied st =
      rejoined (sim_orders st.orders st)
        (record st { l3 = lib.clear st.l3; feed_md_level_quantity = [] })

abbrev pub IsTrade : MarketDataUpdate → Type 0
IsTrade frame = (t : TradeSummary) × (frame ≡ trade_summary t)

-- Trades alone were published.
abbrev pub Printed : {B : Type 0} → (before after : Exchange B) → Type 0
Printed before after =
    (trades : List MarketDataUpdate) × (after.md_queue ≡ trades ++ before.md_queue)
    × All IsTrade trades

module _ {B : Type 0} (lib : OrderBookL3 B) (engine : Engine B) where
  -- A level of the snapshot is matched, and what is left of it joins the back of the queue at its price.
  abbrev pub IsTaken : FeedItem → (id n : ℕ) → (last : Bool) → (before after : Exchange B) → Type 0
  IsTaken u id n last before after =
      IsMatched engine (record (feed_call u.side id u.price u.time) { seq_num = n }) u.qty
        (joins_next lib id u.side u.price u.time n last) before.book after.book
      × Printed before after

  -- The levels are taken one after another, the one at position i under the id `ids i`.
  abbrev pub AreTaken :
      (ids : ℕ → ℕ) → (i n : ℕ) → List FeedItem → (before after : Exchange B) → Type 0
  AreTaken ids i n [] before after = after ≡ before
  AreTaken ids i n (u ∷ us) before after =
      (mid : Exchange B) × IsTaken u (ids i) n (is_last_level us) before mid
      × AreTaken ids (i + 1) n us mid after

  -- The queued events and the buffered rows of the old book are dropped. The book was emptied of the
  -- market's orders, took the levels of the snapshot, and no update waits in a cache; what was published
  -- is the trades of those levels, and then once the book as it stands.
  pub record IsRebuilt (channel : ℕ) (ids : ℕ → ℕ) (updates : List FeedItem) (w w' : Feed B)
      : Type 0 where
    pub queue : w'.live.state.pending_events ≡ []
    pub buffer : w'.live.state.level_update_buffer ≡ []
    pub first : w'.live.state.last_published_level_seq_num ≡ 0
    pub stamp : w.live.state.next_book_seq_num < w'.live.state.next_book_seq_num
    pub taken : Exchange B
    pub levels :
        AreTaken ids 0 w'.live.state.next_book_seq_num
          (reverse updates)
          (record (w.live.ex) { book = emptied lib w.live.ex.book })
          taken
    pub book : w'.live.ex.book ≡ record (taken.book) { level_cache = []; order_cache = [] }
    pub served : w'.l2_pending ≡ false
    pub trades : List MarketDataUpdate
    pub printed : All IsTrade trades
    pub sent :
        w'.live.ex.md_queue
        ≡ book_frame lib channel w.l2_pending w'.live.ex ∷ (trades ++ w.live.ex.md_queue)
