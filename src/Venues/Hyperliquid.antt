-- ===== src/Venues/Hyperliquid.antt =====
-- venues/hyperliquid/hyperliquid_exchange.cpp: the feed of one instrument, whose messages are whole books,
-- differences against the price lists of the last one, and trades. The JSON and the live connection are
-- left out: a message is what its fields say.
pub mod RefLevels
pub mod Taken
pub mod Applied
pub mod Waiting
use slick_sim.Prelude.{
  ℕ, ◌+◌, Bool, true, false, not, ◌&&◌, ◌||◌, List, [], ◌∷◌, Option, none, some, eqb, ltb,
  if◌then◌else◌, get_elem?, reverse,
}
use slick_sim.Common.Enums.{Side, opposite_side}
use slick_sim.Common.Messages.{TradeSummaryInfo}
use slick_sim.Utils.Price.{is_price_better}
use slick_sim.OrderBook.L3.{PriceLevelL3, OrderBookL3}
use slick_sim.OrderBook.Mirror.{level_at, add_l3, clear_md_orders}
use slick_sim.MatchingEngine.Fifo.{Progress}
use slick_sim.Exchange.TradedCredit.{credit_traded_qty}
use slick_sim.Exchange.Symbol.{Engine}
use slick_sim.Exchange.Session.{
  Exchange, publish_trade_summary, publish_trade_subscription_response, populate_l2_snapshot,
  populate_l2_subscription_response,
}
use slick_sim.Exchange.Requests.{on_book}
use slick_sim.Exchange.MarketEvents.{feed_call, printed_feed, reconcile_phantom_qty}
use slick_sim.Venues.Coinbase.Feed.{clear_caches}

-- A level of a message: its price and the quantity there.
pub record WireLevel : Type 0 where
  pub price : ℕ
  pub qty : ℕ

-- A level message in its two shapes. The indices of a difference are into the price lists of the book
-- that came before.
pub data L2BookEvent : Type 0 where
  snapshot : (bids asks : List WireLevel) → L2BookEvent
  diff :
      (removed_bids removed_asks : List ℕ)
      → (changed_bids changed_asks : List WireLevel) → L2BookEvent

pub record WireTrade : Type 0 where
  pub side : Side
  pub price : ℕ
  pub qty : ℕ
  pub time : ℕ

-- HyperliquidChannel
pub data HyperliquidChannel : Type 0 where
  l2_book l2 trades : HyperliquidChannel

abbrev pub channel_code : HyperliquidChannel → ℕ
channel_code HyperliquidChannel.l2_book = 0
channel_code HyperliquidChannel.trades = 1
channel_code HyperliquidChannel.l2 = 2

-- One instrument: l2_ref_levels_, and whether it stands in pending_md_subscription_ of each channel.
pub record Coin (B : Type 0) : Type 0 where
  pub ex : Exchange B
  pub ref_bids : List ℕ
  pub ref_asks : List ℕ
  pub l2_book_pending : Bool
  pub l2_pending : Bool
  pub trades_pending : Bool
  pub num_subscriptions : ℕ

-- The prices at the indices; an index out of range has none.
unfoldable pub price_at : Option ℕ → List ℕ → List ℕ
price_at none prices = prices
price_at (some price) prices = price ∷ prices

unfoldable pub removed_prices : (indices ref_side : List ℕ) → List ℕ
removed_prices [] ref_side = []
removed_prices (i ∷ is) ref_side = price_at (get_elem? ref_side i) (removed_prices is ref_side)

unfoldable pub erase_price : ℕ → List ℕ → List ℕ
erase_price price [] = []
erase_price price (p ∷ ps) = if eqb p price then ps else (p ∷ erase_price price ps)

unfoldable pub erase_prices : (prices ref_side : List ℕ) → List ℕ
erase_prices [] ref_side = ref_side
erase_prices (price ∷ prices) ref_side = erase_prices prices (erase_price price ref_side)

-- std::lower_bound and the insertion there of a price that is not present. The list is sorted, best
-- price first.
unfoldable pub insert_price : Side → ℕ → List ℕ → List ℕ
insert_price side price [] = price ∷ []
insert_price side price (p ∷ ps) =
    if is_price_better side p price
    then (p ∷ insert_price side price ps)
    else if eqb p price
    then (p ∷ ps)
    else (price ∷ (p ∷ ps))

unfoldable pub insert_prices : Side → List WireLevel → List ℕ → List ℕ
insert_prices side [] ref_side = ref_side
insert_prices side (l ∷ ls) ref_side = insert_prices side ls (insert_price side l.price ref_side)

-- The prices of a snapshot's side, which arrive best first; an empty level is passed over.
unfoldable pub snapshot_prices : List WireLevel → List ℕ
snapshot_prices [] = []
snapshot_prices (l ∷ ls) = if ltb 0 l.qty then l.price ∷ snapshot_prices ls else snapshot_prices ls

-- The list of a side after a difference.
unfoldable pub ref_after : Side → (indices : List ℕ) → List WireLevel → List ℕ → List ℕ
ref_after side indices changed ref_side =
    insert_prices side changed (erase_prices (removed_prices indices ref_side) ref_side)

module _ {B : Type 0} where
  unfoldable pub set_last_update : (event_time : ℕ) → Exchange B → Exchange B
  set_last_update event_time ex = record ex { last_update_time = event_time }

  unfoldable pub publish_credits : WireTrade → List TradeSummaryInfo → Exchange B → Exchange B
  publish_credits t [] ex = ex
  publish_credits t (s ∷ ss) ex = publish_credits t ss (
      publish_trade_summary s (record ex {
        credits = credit_traded_qty (opposite_side t.side) s.price s.phantom_qty t.time ex.credits;
      }))

  -- onHyperliquidDisconnected, for an instrument of the feed.
  unfoldable pub on_hyperliquid_disconnected : Coin B → Coin B
  on_hyperliquid_disconnected c = record c {
    l2_book_pending = true;
    l2_pending = true;
    trades_pending = true;
  }

module _ {B : Type 0} (lib : OrderBookL3 B) where
  -- What a match leaves of market liquidity rests, with no priority of its own.
  unfoldable pub rest_phantom :
      Side → (id price event_time : ℕ) → Exchange B → Option (Progress B) → Option (Exchange B)
  rest_phantom side id price event_time ex none = none
  rest_phantom side id price event_time ex (some p) =
      let printed = printed_feed p ex in
      some (
        if ltb 0 p.qty
        then on_book (add_l3 lib id side price p.qty event_time 0 0 true) printed
        else printed)

  unfoldable pub replayed_trade :
      WireTrade → (id : ℕ) → Exchange B → Option (Progress B) → Option (Exchange B)
  replayed_trade t id ex none = none
  replayed_trade t id ex (some p) =
      let matched : Exchange B = record ex { book = p.ctx.st } in
      let rested =
        if ltb 0 p.qty
        then on_book (add_l3 lib id t.side t.price p.qty t.time 0 0 true) matched
        else matched in
      some (publish_credits t (reverse p.ctx.summaries) rested)

  unfoldable pub respond :
      (channel : HyperliquidChannel) → (pending : Bool) → Exchange B → Exchange B
  respond channel pending ex =
      if pending then populate_l2_subscription_response lib (channel_code channel) ex else ex

  -- finalizeL2Event
  unfoldable pub finalize_l2_event : Coin B → Coin B
  finalize_l2_event c =
      let book_sent = respond HyperliquidChannel.l2_book c.l2_book_pending c.ex in
      let sent = respond HyperliquidChannel.l2 c.l2_pending book_sent in
      record c {
        ex =
            if not c.l2_book_pending || not c.l2_pending
            then populate_l2_snapshot lib sent
            else sent;
        l2_book_pending = false;
        l2_pending = false;
      }

  -- The common end of a level message: the time, the frames, and the caches.
  unfoldable pub end_l2_event :
      (event_time : ℕ)
      → (ref_bids ref_asks : List ℕ) → Coin B
      → Option (Exchange B)
      → Option (Coin B)
  end_l2_event event_time ref_bids ref_asks c none = none
  end_l2_event event_time ref_bids ref_asks c (some ex) =
      let finalized = finalize_l2_event (record c {
        ex = set_last_update event_time ex;
        ref_bids = ref_bids;
        ref_asks = ref_asks;
      }) in
      some (record finalized { ex = clear_caches finalized.ex })

  -- The common end of a message of trades.
  unfoldable pub end_trades : Coin B → Option (Exchange B) → Option (Coin B)
  end_trades c none = none
  end_trades c (some ex) = some (record c { ex = clear_caches (populate_l2_snapshot lib ex) })

  -- The answer to a subscription that finds the book, or the tape, in place.
  unfoldable pub serve : HyperliquidChannel → Exchange B → Exchange B
  serve HyperliquidChannel.l2_book ex =
      populate_l2_subscription_response lib (channel_code HyperliquidChannel.l2_book) ex
  serve HyperliquidChannel.l2 ex =
      populate_l2_subscription_response lib (channel_code HyperliquidChannel.l2) ex
  serve HyperliquidChannel.trades ex =
      publish_trade_subscription_response (channel_code HyperliquidChannel.trades) ex

  -- Of handleMdSubscription the switch on the live feed and on an instrument that it did not know.
  unfoldable pub subscribe_live : (is_new : Bool) → HyperliquidChannel → Coin B → Coin B
  subscribe_live true HyperliquidChannel.trades c = record c {
    ex = serve HyperliquidChannel.trades c.ex;
  }
  subscribe_live true HyperliquidChannel.l2_book c = record c { l2_book_pending = true }
  subscribe_live true HyperliquidChannel.l2 c = record c { l2_pending = true }
  subscribe_live false HyperliquidChannel.trades c =
      if c.trades_pending then c else record c { ex = serve HyperliquidChannel.trades c.ex }
  subscribe_live false HyperliquidChannel.l2_book c =
      if c.l2_book_pending then c else record c { ex = serve HyperliquidChannel.l2_book c.ex }
  subscribe_live false HyperliquidChannel.l2 c =
      if c.l2_pending then c else record c { ex = serve HyperliquidChannel.l2 c.ex }

  -- handleMdSubscription
  unfoldable pub handle_md_subscription :
      (use_live_feed is_new : Bool) → HyperliquidChannel → Coin B → Coin B
  handle_md_subscription use_live_feed is_new channel c =
      let counted = record c { num_subscriptions = c.num_subscriptions + 1 } in
      if use_live_feed
      then subscribe_live is_new channel counted
      else record counted { ex = serve channel c.ex }

module _ {B : Type 0} (lib : OrderBookL3 B) (engine : Engine B) where
  unfoldable pub match_phantom :
      Side → (id price qty event_time : ℕ) → Exchange B → Option (Exchange B)
  match_phantom side id price qty event_time ex =
      rest_phantom lib side id price event_time ex
        (engine.match_feed (feed_call side id price event_time) qty ex.book)

  unfoldable pub level_found :
      Side
      → (id price target_qty event_time : ℕ) → Option PriceLevelL3
      → Exchange B
      → Option (Exchange B)
  level_found side id price target_qty event_time none ex =
      if ltb 0 target_qty then match_phantom side id price target_qty event_time ex else some ex
  level_found side id price target_qty event_time (some l) ex =
      some (reconcile_phantom_qty lib side price target_qty event_time 0 id true ex)

  -- applyPhantomLevelUpdate
  unfoldable pub apply_phantom_level_update :
      Side → (id price target_qty event_time : ℕ) → Exchange B → Option (Exchange B)
  apply_phantom_level_update side id price target_qty event_time ex =
      level_found side id price target_qty event_time (level_at price (lib.levels side ex.book.l3))
        ex

  unfoldable pub then_with :
      (Exchange B → Option (Exchange B)) → Option (Exchange B) → Option (Exchange B)
  then_with f none = none
  then_with f (some ex) = f ex

  -- The loops over the levels of one side. The level at position i draws the order id `ids i`.
  unfoldable pub apply_removals :
      (ids : ℕ → ℕ)
      → (i event_time : ℕ) → Side
      → (prices : List ℕ) → Exchange B
      → Option (Exchange B)
  apply_removals ids i event_time side [] ex = some ex
  apply_removals ids i event_time side (price ∷ prices) ex =
      then_with (apply_removals ids (i + 1) event_time side prices)
        (apply_phantom_level_update side (ids i) price 0 event_time ex)

  unfoldable pub apply_changes :
      (ids : ℕ → ℕ) → (i event_time : ℕ) → Side → List WireLevel → Exchange B → Option (Exchange B)
  apply_changes ids i event_time side [] ex = some ex
  apply_changes ids i event_time side (l ∷ ls) ex =
      then_with (apply_changes ids (i + 1) event_time side ls)
        (apply_phantom_level_update side (ids i) l.price l.qty event_time ex)

  unfoldable pub process_side :
      (ids : ℕ → ℕ) → (i event_time : ℕ) → Side → List WireLevel → Exchange B → Option (Exchange B)
  process_side ids i event_time side [] ex = some ex
  process_side ids i event_time side (l ∷ ls) ex =
      then_with (process_side ids (i + 1) event_time side ls)
        (if ltb 0 l.qty then match_phantom side (ids i) l.price l.qty event_time ex else some ex)

  -- processL2Snapshot and processL2Diff. Each of the loops draws order ids from a source of its own.
  unfoldable pub process_l2_book_event :
      (ids : ℕ → ℕ → ℕ) → (event_time : ℕ) → L2BookEvent → Coin B → Option (Coin B)
  process_l2_book_event ids event_time (snapshot bids asks) c =
      end_l2_event lib event_time (snapshot_prices bids) (snapshot_prices asks) c (
        then_with (process_side (ids 1) 0 event_time Side.sell asks) (
          process_side (ids 0) 0 event_time Side.buy bids
            (record (c.ex) { book = clear_md_orders lib c.ex.book })))
  process_l2_book_event ids event_time (diff removed_bids removed_asks changed_bids changed_asks)
        c =
      end_l2_event lib event_time (ref_after Side.buy removed_bids changed_bids c.ref_bids)
        (ref_after Side.sell removed_asks changed_asks c.ref_asks) c
        (then_with (apply_changes (ids 3) 0 event_time Side.sell changed_asks) (
          then_with (apply_changes (ids 2) 0 event_time Side.buy changed_bids) (
            then_with
              (apply_removals (ids 1) 0 event_time Side.sell
                (removed_prices removed_asks c.ref_asks))
              (apply_removals (ids 0) 0 event_time Side.buy (removed_prices removed_bids c.ref_bids)
                c.ex))))

  unfoldable pub replay_trades :
      (ids : ℕ → ℕ) → (i : ℕ) → List WireTrade → Exchange B → Option (Exchange B)
  replay_trades ids i [] ex = some ex
  replay_trades ids i (t ∷ ts) ex = then_with (replay_trades ids (i + 1) ts) (
      replayed_trade lib t (ids i) ex
        (engine.match_feed (feed_call t.side (ids i) t.price t.time) t.qty ex.book))

  -- processTradesEvent, on a message that names the instrument: an empty one names none.
  unfoldable pub process_trades_event : (ids : ℕ → ℕ) → List WireTrade → Coin B → Option (Coin B)
  process_trades_event ids [] c = some c
  process_trades_event ids (t ∷ ts) c = end_trades lib c (replay_trades ids 0 (t ∷ ts) c.ex)
