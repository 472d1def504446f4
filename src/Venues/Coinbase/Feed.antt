-- ===== src/Venues/Coinbase/Feed.antt =====
-- venues/coinbase: the snapshots of the feed, and the subscriptions that wait for them.
pub mod Rebuilt
pub mod TradeIds
use slick_sim.Prelude.{
  ℕ, ◌+◌, ◌-◌, Bool, true, false, not, ◌&&◌, ◌||◌, List, [], ◌∷◌, Option, none, some, eqb, ltb, leb,
  if◌then◌else◌, reverse,
}
use slick_sim.Common.Enums.{Side}
use slick_sim.Common.MarketData.{MdTrade}
use slick_sim.Utils.RingBuffer.{RingBuffer, push, ring_buffer}
use slick_sim.OrderBook.L3.{OrderBookL3}
use slick_sim.OrderBook.State.{State}
use slick_sim.OrderBook.Mirror.{add_book_order, clear_md_orders}
use slick_sim.MatchingEngine.Fifo.{Progress}
use slick_sim.Exchange.Symbol.{Engine}
use slick_sim.Exchange.Session.{
  Exchange, populate_l2_snapshot, populate_l2_subscription_response, publish_trade_summaries,
  publish_trade_subscription_response,
}
use slick_sim.Exchange.MarketEvents.{feed_call}
use slick_sim.Venues.Coinbase.{SymbolEventState, FeedItem}
use slick_sim.Venues.Coinbase.Dispatch.{Live, next_book_seq}

-- WebSocketChannel, as far as a subscription looks at it.
pub data Channel : Type 0 where
  level2 market_trades other : Channel

-- One instrument, and whether it stands in pending_md_subscription_ of each channel.
pub record Feed (B : Type 0) : Type 0 where
  pub live : Live B
  pub l2_pending : Bool
  pub trades_pending : Bool
  pub num_subscriptions : ℕ

-- The state of a book that is about to be rebuilt: what was queued or buffered is about the old one.
unfoldable pub reset_events : (book_seq : ℕ) → SymbolEventState → SymbolEventState
reset_events book_seq s = record s {
  pending_events = [];
  level_update_buffer = [];
  last_published_level_seq_num = 0;
  next_book_seq_num = next_book_seq book_seq s;
}

-- A trade of the snapshot. `none` is an id that is not a number.
pub record TradePrint : Type 0 where
  pub trade_id : Option ℕ
  pub item : FeedItem

unfoldable pub print_entry : (trade_id seq_num : ℕ) → FeedItem → MdTrade
print_entry trade_id seq_num u = record {
  trade_id = trade_id;
  event_time = u.time;
  seq_num = seq_num;
  price = u.price;
  qty = u.qty;
  flags = record { is_snapshot = false; end_event = false; not_in_book = true };
  side = u.side;
}

-- The id of a print, and the next id of the exchange after it.
unfoldable pub print_id : Option ℕ → (next_trade_id : ℕ) → ℕ × ℕ
print_id none next_trade_id = (next_trade_id, next_trade_id + 1)
print_id (some id) next_trade_id = (id, if leb next_trade_id id then id + 1 else next_trade_id)

unfoldable pub is_last_level : List FeedItem → Bool
is_last_level [] = true
is_last_level (u ∷ us) = false

module _ {B : Type 0} where
  unfoldable pub clear_caches : Exchange B → Exchange B
  clear_caches ex = record ex { book = record (ex.book) { level_cache = []; order_cache = [] } }

  unfoldable pub record_print : (seq_num : ℕ) → TradePrint → Exchange B → Exchange B
  record_print seq_num t ex =
      let (id, next) = print_id t.trade_id ex.next_trade_id in
      record ex {
        next_trade_id = next;
        trade_history = push (print_entry id seq_num t.item) ex.trade_history;
      }

  unfoldable pub record_prints : (seq_num : ℕ) → List TradePrint → Exchange B → Exchange B
  record_prints seq_num [] ex = ex
  record_prints seq_num (t ∷ ts) ex = record_prints seq_num ts (record_print seq_num t ex)

  unfoldable pub on_exchange : (Exchange B → Exchange B) → Feed B → Feed B
  on_exchange f w = record w { live = record (w.live) { ex = f w.live.ex } }

  -- onMarketTradesSnapshot: the newest trade comes first, and the loop walks backwards.
  unfoldable pub on_market_trades_snapshot :
      (channel seq_num : ℕ) → List TradePrint → Feed B → Feed B
  on_market_trades_snapshot channel seq_num [] w = w
  on_market_trades_snapshot channel seq_num (t ∷ ts) w =
      if w.trades_pending
      then record (on_exchange
          (λ ex.
            publish_trade_subscription_response channel
              (record_prints seq_num (reverse (t ∷ ts)) ex))
          w) { trades_pending = false }
      else w

  -- onMarketDataDisconnected, for an instrument of the feed. `history` is the empty one.
  unfoldable pub on_market_data_disconnected : (history : RingBuffer MdTrade) → Feed B → Feed B
  on_market_data_disconnected history w =
      record (on_exchange (λ ex. record ex { trade_history = history }) w) {
        l2_pending = true;
        trades_pending = true;
      }

module _ {B : Type 0} (lib : OrderBookL3 B) where
  unfoldable pub rest_snapshot_level :
      FeedItem
      → (id book_seq_num : ℕ) → (last : Bool) → Exchange B
      → Option (Progress B)
      → Option (Exchange B)
  rest_snapshot_level u id book_seq_num last ex none = none
  rest_snapshot_level u id book_seq_num last ex (some p) =
      let book =
        if ltb 0 p.qty
        then add_book_order lib id u.side u.price p.qty u.time book_seq_num last p.ctx.st
        else p.ctx.st in
      let printed = publish_trade_summaries (reverse p.ctx.summaries) (record ex { book = book }) in
      some (record printed {
        last_update_time =
            if ltb printed.last_update_time u.time then u.time else printed.last_update_time;
      })

  -- The snapshot of the book that a subscriber waits for, or the one for everybody.
  unfoldable pub publish_book : (channel : ℕ) → (pending : Bool) → Exchange B → Exchange B
  publish_book channel pending ex = clear_caches (
      if pending
      then populate_l2_subscription_response lib channel ex
      else populate_l2_snapshot lib ex)

  -- handleMdSubscription of an instrument that the exchange has.
  unfoldable pub handle_md_subscription : (channel : ℕ) → Channel → Feed B → Feed B
  handle_md_subscription channel Channel.level2 w =
      let counted = record w { num_subscriptions = w.num_subscriptions + 1 } in
      if w.l2_pending
      then counted
      else on_exchange (populate_l2_subscription_response lib channel) counted
  handle_md_subscription channel Channel.market_trades w =
      let counted = record w { num_subscriptions = w.num_subscriptions + 1 } in
      if w.trades_pending
      then counted
      else on_exchange (publish_trade_subscription_response channel) counted
  handle_md_subscription channel Channel.other w = record w {
    num_subscriptions = w.num_subscriptions + 1;
  }

module _ {B : Type 0} (lib : OrderBookL3 B) (engine : Engine B) where
  unfoldable pub snapshot_level :
      FeedItem → (id book_seq_num : ℕ) → (last : Bool) → Exchange B → Option (Exchange B)
  snapshot_level u id book_seq_num last ex = rest_snapshot_level lib u id book_seq_num last ex (
      engine.match_feed (record (feed_call u.side id u.price u.time) { seq_num = book_seq_num })
        u.qty ex.book)

  unfoldable pub bind_exchange :
      (Exchange B → Option (Exchange B)) → Option (Exchange B) → Option (Exchange B)
  bind_exchange f none = none
  bind_exchange f (some ex) = f ex

  -- The loop over the levels. The i-th of them draws the order id `ids i`.
  unfoldable pub snapshot_levels_from :
      (ids : ℕ → ℕ) → (i book_seq_num : ℕ) → List FeedItem → Exchange B → Option (Exchange B)
  snapshot_levels_from ids i book_seq_num [] ex = some ex
  snapshot_levels_from ids i book_seq_num (u ∷ us) ex =
      bind_exchange (snapshot_levels_from ids (i + 1) book_seq_num us)
        (snapshot_level u (ids i) book_seq_num (is_last_level us) ex)

  unfoldable pub rebuilt :
      (channel : ℕ) → SymbolEventState → Feed B → Option (Exchange B) → Option (Feed B)
  rebuilt channel s w none = none
  rebuilt channel s w (some ex) = some (record w {
    live = record { ex = publish_book lib channel w.l2_pending ex; state = s };
    l2_pending = false;
  })

  -- onLevel2Snapshot: the levels in the reverse of the order in which the venue lists them.
  unfoldable pub on_level2_snapshot :
      (channel : ℕ) → (ids : ℕ → ℕ) → List FeedItem → Feed B → Option (Feed B)
  on_level2_snapshot channel ids updates w =
      let ex = record (w.live.ex) { book = clear_md_orders lib w.live.ex.book } in
      let s = reset_events (lib.last_seq_num ex.book.l3) w.live.state in
      rebuilt channel s w (snapshot_levels_from ids 0 s.next_book_seq_num (reverse updates) ex)
