-- ===== src/Exchange/Session.antt =====
-- exchange/exchange.hpp and exchange.cpp: the state of an exchange with one instrument, the market-data
-- frames that it publishes, and the identities it gives to clients. Instruments share nothing but the
-- queues and the counters.
pub mod Tape
pub mod Identities
pub mod Snapshot
use slick_sim.Prelude.{
  ℕ, zero, suc, String, Bool, false, not, ◌||◌, ◌+◌, ◌++◌, List, [], ◌∷◌, Option, none, some, leb,
  if◌then◌else◌, ◌==◌, string_keyed, lookup, emplace, length, reverse,
}
use slick_sim.Common.Enums.{Side, SelfMatchPreventionMode}
use slick_sim.Common.MarketData.{MdLevel, MdOrder, MdTrade, MdSubscriptionRejectReason}
use slick_sim.Common.Messages.{Trade, TradeSummaryInfo}
use slick_sim.Utils.RingBuffer.{RingBuffer, push, size, at_index}
use slick_sim.OrderBook.L3.{PriceLevelL3, OrderBookL3}
use slick_sim.OrderBook.State.{State}
use slick_sim.Exchange.TradedCredit.{TradedCredits}

-- The frame of one trade.
pub record TradeSummary : Type 0 where
  pub timestamp : ℕ
  pub trade_id : ℕ
  pub security_id : ℕ
  pub aggressor_side : Side
  pub price : ℕ
  pub qty : ℕ
  pub num_orders : ℕ
  pub trades : List Trade

-- The payload of a subscription response: a rejection has none.
pub record MdTradeSnapshotResponse : Type 0 where
  pub num_snapshot : ℕ
  pub num_update : ℕ
  pub trades : List MdTrade

pub record MdSubscriptionResponse : Type 0 where
  pub channel : ℕ
  pub reject_reason : MdSubscriptionRejectReason
  pub snapshot : Option MdTradeSnapshotResponse

-- A level of a book snapshot, with the fields that the book fills.
pub record SnapshotLevel : Type 0 where
  pub price : ℕ
  pub qty : ℕ
  pub num_orders : ℕ

pub record BookSnapshot : Type 0 where
  pub num_bid : ℕ
  pub num_ask : ℕ
  pub levels : List SnapshotLevel

-- A published frame, without its venue and symbol, which are those of the exchange.
pub data MarketDataUpdate : Type 0 where
  level : List MdLevel → MarketDataUpdate
  order : List MdOrder → MarketDataUpdate
  trade_summary : TradeSummary → MarketDataUpdate
  sub_response : MdSubscriptionResponse → MarketDataUpdate
  -- A subscription response that carries a book, and a book that nobody asked for.
  book_response : (channel : ℕ) → BookSnapshot → MarketDataUpdate
  book_snapshot : BookSnapshot → MarketDataUpdate

pub record Exchange (B : Type 0) : Type 0 where
  pub symbol : String
  pub symbol_id : ℕ
  pub smp_mode : SelfMatchPreventionMode
  pub publish_order_updates : Bool
  pub book : State B
  -- last_update_time_ of the order book.
  pub last_update_time : ℕ
  pub trade_history : RingBuffer MdTrade
  -- md_queue_, the last frame first.
  pub md_queue : List MarketDataUpdate
  -- traded_qty_credit_ of the instrument, and whether market_changed_symbols_ lists it.
  pub credits : TradedCredits
  pub market_changed : Bool
  pub client_ids : List (String × ℕ)
  pub next_client_id : ℕ
  pub next_trade_id : ℕ

unfoldable pub tape_entry : (trade_id : ℕ) → TradeSummaryInfo → MdTrade
tape_entry trade_id s = record {
  trade_id = trade_id;
  event_time = s.timestamp;
  seq_num = 0;
  price = s.price;
  qty = s.qty;
  flags = record { is_snapshot = false; end_event = false; not_in_book = false };
  side = s.aggressor_side;
}

unfoldable pub summary_frame : (trade_id security_id : ℕ) → TradeSummaryInfo → TradeSummary
summary_frame trade_id security_id s = record {
  timestamp = s.timestamp;
  trade_id = trade_id;
  security_id = security_id;
  aggressor_side = s.aggressor_side;
  price = s.price;
  qty = s.qty;
  num_orders = s.num_orders;
  trades = s.trades;
}

-- A trade that the book reflects: one that it absorbed, or that is no newer than its last update.
unfoldable pub reflected_in_book : (book_time : ℕ) → MdTrade → Bool
reflected_in_book book_time t = not t.flags.not_in_book || leb t.event_time book_time

unfoldable pub keep_trade : (MdTrade → Bool) → Option MdTrade → List MdTrade → List MdTrade
keep_trade keep none rest = rest
keep_trade keep (some t) rest = if keep t then (t ∷ rest) else rest

-- One pass over `count` trades of the ring from position `i` on, which copies those that pass the test.
unfoldable pub collect : (MdTrade → Bool) → (count i : ℕ) → RingBuffer MdTrade → List MdTrade
collect keep zero i r = []
collect keep (suc count) i r = keep_trade keep (at_index i r) (collect keep count (i + 1) r)

unfoldable pub snapshot_of : (book_time : ℕ) → RingBuffer MdTrade → MdTradeSnapshotResponse
snapshot_of book_time history =
    let settled = collect (reflected_in_book book_time) (size history) 0 history in
    let newer = collect (λ t. not (reflected_in_book book_time t)) (size history) 0 history in
    record { num_snapshot = length settled; num_update = length newer; trades = settled ++ newer }

unfoldable pub snapshot_levels : List PriceLevelL3 → List SnapshotLevel
snapshot_levels [] = []
snapshot_levels (l ∷ ls) =
    record { price = l.price; qty = l.total_quantity; num_orders = length l.orders }
    ∷ snapshot_levels ls

-- Bids before asks, each best price first.
unfoldable pub book_of : (bids asks : List PriceLevelL3) → BookSnapshot
book_of bids asks = record {
  num_bid = length bids;
  num_ask = length asks;
  levels = snapshot_levels bids ++ snapshot_levels asks;
}

module _ {B : Type 0} (lib : OrderBookL3 B) where
  -- populateL2Snapshot and populateL2SubscriptionResponse.
  unfoldable pub book_levels : State B → BookSnapshot
  book_levels st = book_of (lib.levels Side.buy st.l3) (lib.levels Side.sell st.l3)

  unfoldable pub populate_l2_snapshot : Exchange B → Exchange B
  populate_l2_snapshot ex = record ex {
    md_queue = book_snapshot (book_levels ex.book) ∷ ex.md_queue;
  }

  unfoldable pub populate_l2_subscription_response : (channel : ℕ) → Exchange B → Exchange B
  populate_l2_subscription_response channel ex = record ex {
    md_queue = book_response channel (book_levels ex.book) ∷ ex.md_queue;
  }

module _ {B : Type 0} where
  unfoldable pub publish_frame : MarketDataUpdate → Exchange B → Exchange B
  publish_frame frame ex = record ex { md_queue = frame ∷ ex.md_queue }

  -- publishLevelUpdate and publishMDOrderUpdate on a cache that is not empty. A cache lists its last
  -- entry first.
  unfoldable pub flush_levels : List MdLevel → Exchange B → Exchange B
  flush_levels [] ex = ex
  flush_levels (l ∷ ls) ex =
      let sent = publish_frame (level (reverse (l ∷ ls))) ex in
      record sent { book = record (sent.book) { level_cache = [] } }

  unfoldable pub flush_orders : List MdOrder → Exchange B → Exchange B
  flush_orders [] ex = ex
  flush_orders (o ∷ os) ex =
      let sent =
        if ex.publish_order_updates then publish_frame (order (reverse (o ∷ os))) ex else ex in
      record sent { book = record (sent.book) { order_cache = [] } }

  -- flushMarketDataCaches
  unfoldable pub flush_market_data_caches : Exchange B → Exchange B
  flush_market_data_caches ex =
      let levels_sent = flush_levels ex.book.level_cache ex in
      flush_orders levels_sent.book.order_cache levels_sent

  -- publishTradeSummary, with nextVenueTradeId and recordTrade.
  unfoldable pub publish_trade_summary : TradeSummaryInfo → Exchange B → Exchange B
  publish_trade_summary s ex =
      let trade_id = ex.next_trade_id in
      let sent = publish_frame (trade_summary (summary_frame trade_id ex.symbol_id s)) ex in
      record sent {
        next_trade_id = trade_id + 1;
        trade_history = push (tape_entry trade_id s) sent.trade_history;
      }

  unfoldable pub publish_trade_summaries : List TradeSummaryInfo → Exchange B → Exchange B
  publish_trade_summaries [] ex = ex
  publish_trade_summaries (s ∷ ss) ex = publish_trade_summaries ss (publish_trade_summary s ex)

  -- publishTradeSubscriptionResponse
  unfoldable pub publish_trade_subscription_response : (channel : ℕ) → Exchange B → Exchange B
  publish_trade_subscription_response channel ex =
      publish_frame
        (sub_response (record {
          channel = channel;
          reject_reason = MdSubscriptionRejectReason.none;
          snapshot = some (snapshot_of ex.last_update_time ex.trade_history);
        }))
        ex

  -- rejectMdSubscription
  unfoldable pub reject_md_subscription :
      (channel : ℕ) → MdSubscriptionRejectReason → Exchange B → Exchange B
  reject_md_subscription channel reason ex =
      publish_frame
        (sub_response (record { channel = channel; reject_reason = reason; snapshot = none })) ex

  unfoldable pub client_found : String → Option ℕ → Exchange B → Option ℕ × Exchange B
  client_found user_id (some id) ex = (some id, ex)
  client_found user_id none ex = (
    some ex.next_client_id,
    record ex {
      client_ids = emplace user_id ex.next_client_id ex.client_ids;
      next_client_id = ex.next_client_id + 1;
    },
  )

  -- clientIdFor. -1, no identity, is `none`.
  unfoldable pub client_id_for : String → Exchange B → Option ℕ × Exchange B
  client_id_for user_id ex =
      if user_id == "" then (none, ex) else client_found user_id (lookup user_id ex.client_ids) ex
