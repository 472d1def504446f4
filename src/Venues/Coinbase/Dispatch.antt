-- ===== src/Venues/Coinbase/Dispatch.antt =====
-- venues/coinbase/coinbase_exchange.cpp: the events that are released reach the book, and the rows of a
-- level update wait in the buffer of their instrument.
pub mod Answered
pub mod Handled
pub mod Queue
pub mod Drained
pub mod Buffer
pub mod Level
use slick_sim.Prelude.{
  ℕ, ◌+◌, Bool, true, false, not, List, [], ◌∷◌, Option, none, some, eqb, ltb, if◌then◌else◌,
  reverse, length,
}
use slick_sim.Common.Enums.{Side, opposite_side}
use slick_sim.Common.MarketData.{MdUpdateAction, UpdateFlags, MdLevel}
use slick_sim.Common.Messages.{TradeSummaryInfo}
use slick_sim.OrderBook.L3.{RestingOrder, PriceLevelL3, OrderBookL3}
use slick_sim.OrderBook.State.{State}
use slick_sim.OrderBook.Mirror.{add_book_order}
use slick_sim.MatchingEngine.Fifo.{FeedCall, Progress}
use slick_sim.Exchange.TradedCredit.{credit_traded_qty}
use slick_sim.Exchange.Symbol.{Engine}
use slick_sim.Exchange.Session.{
  Exchange, level, publish_frame, publish_trade_summary, publish_trade_summaries,
  flush_market_data_caches,
}
use slick_sim.Exchange.MarketEvents.{feed_call, reconcile_phantom_qty}
use slick_sim.Venues.Coinbase.{EventType, Event, SymbolEventState, is_ready}

-- One instrument: its exchange and its event state.
pub record Live (B : Type 0) : Type 0 where
  pub ex : Exchange B
  pub state : SymbolEventState

-- nextBookSeqNum, which answers the new `next_book_seq_num`.
unfoldable pub next_book_seq : (book_seq : ℕ) → SymbolEventState → ℕ
next_book_seq book_seq s =
    if ltb s.next_book_seq_num book_seq then book_seq + 1 else s.next_book_seq_num + 1

-- getLevel: the level at a price and its position. `no_index` is the position that the library gives
-- with no level.
unfoldable pub get_level : (no_index price i : ℕ) → List PriceLevelL3 → Option PriceLevelL3 × ℕ
get_level no_index price i [] = (none, no_index)
get_level no_index price i (l ∷ ls) =
    if eqb l.price price then (some l, i) else get_level no_index price (i + 1) ls

unfoldable pub row_index : (before after : Option PriceLevelL3) → (index new_index : ℕ) → ℕ
row_index none (some after) index new_index = new_index
row_index none none index new_index = index
row_index (some before) after index new_index = index

unfoldable pub row_action : MdUpdateAction → (after : Option PriceLevelL3) → MdUpdateAction
row_action action none = MdUpdateAction.action_delete
row_action action (some after) = action

unfoldable pub published_qty : Option PriceLevelL3 → ℕ
published_qty none = 0
published_qty (some l) = l.total_quantity

unfoldable pub published_orders : Option PriceLevelL3 → ℕ
published_orders none = 0
published_orders (some l) = length l.orders

unfoldable pub event_flags : Event → UpdateFlags
event_flags e = record { is_snapshot = false; end_event = e.end_event; not_in_book = false }

-- The row of a level update, which shows the level as the book holds it.
unfoldable pub level_row :
    Event
    → MdUpdateAction
    → (before : Option PriceLevelL3 × ℕ) → (after : Option PriceLevelL3 × ℕ) → MdLevel
level_row e action (before, index) (after, new_index) = record {
  event_time = e.event_time;
  seq_num = e.seq_num;
  price = e.price;
  qty = published_qty after;
  num_orders = published_orders after;
  level_index = row_index before after index new_index;
  update_action = row_action action after;
  flags = event_flags e;
  side = e.side;
}

-- The arguments of a match of an event, stamped with the book's sequence.
unfoldable pub event_call : Event → (id book_seq_num : ℕ) → FeedCall
event_call e id book_seq_num = record (feed_call e.side id e.price e.event_time) {
  seq_num = book_seq_num;
}

unfoldable pub first_published : (seq_num : ℕ) → SymbolEventState → SymbolEventState
first_published seq_num s = record s {
  last_published_level_seq_num =
      if eqb s.last_published_level_seq_num 0 then seq_num else s.last_published_level_seq_num;
}

module _ {B : Type 0} where
  -- The rows in the buffer are published once a row of another sequence comes, and
  -- last_published_level_seq_num takes the sequence of the last of them.
  unfoldable pub flush_rows : (seq_num : ℕ) → List MdLevel → Live B → Live B
  flush_rows seq_num [] v = v
  flush_rows seq_num (l ∷ ls) v =
      if eqb seq_num v.state.last_published_level_seq_num then v else record v {
        ex = publish_frame (level (reverse (l ∷ ls))) v.ex;
        state = record (v.state) {
          last_published_level_seq_num = l.seq_num;
          level_update_buffer = [];
        };
      }

  -- A row joins the buffer, after the rows of an earlier sequence have left it.
  unfoldable pub buffer_row : MdLevel → Live B → Live B
  buffer_row row v =
      let started = record v { state = first_published row.seq_num v.state } in
      let flushed = flush_rows row.seq_num v.state.level_update_buffer started in
      record flushed {
        state = record (flushed.state) {
          level_update_buffer = row ∷ flushed.state.level_update_buffer;
        };
      }

  -- The trades of a print are credited, each before it is published.
  unfoldable pub publish_credited : Event → List TradeSummaryInfo → Exchange B → Exchange B
  publish_credited e [] ex = ex
  publish_credited e (s ∷ ss) ex = publish_credited e ss (
      publish_trade_summary s (record ex {
        credits =
            credit_traded_qty (opposite_side e.side) s.price s.phantom_qty e.event_time ex.credits;
      }))

unfoldable pub new_action : {B : Type 0} → Progress B → MdUpdateAction
new_action p = if ltb 0 p.qty then MdUpdateAction.action_new else MdUpdateAction.action_change

module _ {B : Type 0} (lib : OrderBookL3 B) where
  -- What a match leaves of an event rests with the id that it was matched under.
  unfoldable pub rest_event : Event → (id book_seq_num : ℕ) → Progress B → State B
  rest_event e id book_seq_num p =
      if ltb 0 p.qty
      then add_book_order lib id e.side e.price p.qty e.event_time book_seq_num e.end_event p.ctx.st
      else p.ctx.st

  -- A level that the book does not have is matched, and what is left of it rests.
  unfoldable pub open_level :
      Event
      → (id book_seq_num : ℕ) → Exchange B
      → Option (Progress B)
      → Option (MdUpdateAction × Exchange B)
  open_level e id book_seq_num ex none = none
  open_level e id book_seq_num ex (some p) = some (
    new_action p,
    flush_market_data_caches (
        publish_trade_summaries (reverse p.ctx.summaries)
          (record ex { book = rest_event e id book_seq_num p })),
  )

  unfoldable pub replay_print :
      Event → (id book_seq_num : ℕ) → Exchange B → Option (Progress B) → Option (Exchange B)
  replay_print e id book_seq_num ex none = none
  replay_print e id book_seq_num ex (some p) = some (
      flush_market_data_caches (
        publish_credited e (reverse p.ctx.summaries)
          (record ex { book = rest_event e id book_seq_num p })))

module _ {B : Type 0} (lib : OrderBookL3 B) (engine : Engine B) (no_index : ℕ) where
  unfoldable pub update_level :
      Event
      → (id book_seq_num : ℕ) → Option PriceLevelL3
      → Exchange B
      → Option (MdUpdateAction × Exchange B)
  update_level e id book_seq_num none ex =
      open_level lib e id book_seq_num ex
        (engine.match_feed (event_call e id book_seq_num) e.qty ex.book)
  update_level e id book_seq_num (some l) ex = some (
    MdUpdateAction.action_change,
    reconcile_phantom_qty lib e.side e.price e.qty e.event_time book_seq_num id e.end_event ex,
  )

  unfoldable pub level_of : Event → Exchange B → Option PriceLevelL3 × ℕ
  level_of e ex = get_level no_index e.price 0 (lib.levels e.side ex.book.l3)

  unfoldable pub buffer_level :
      Event
      → (before : Option PriceLevelL3 × ℕ) → SymbolEventState
      → Option (MdUpdateAction × Exchange B)
      → Option (Live B)
  buffer_level e before s none = none
  buffer_level e before s (some (action, ex)) = some (
      buffer_row (level_row e action before (level_of e ex))
        (record { ex = record ex { last_update_time = e.event_time }; state = s }))

  unfoldable pub with_exchange : SymbolEventState → Option (Exchange B) → Option (Live B)
  with_exchange s none = none
  with_exchange s (some ex) = some (record { ex = ex; state = s })

  -- dispatchEvent. `id` is the order id that the event draws.
  unfoldable pub dispatch_type :
      EventType → Event → (id book_seq_num : ℕ) → Live B → Option (Live B)
  dispatch_type EventType.level_update e id book_seq_num v =
      if ltb e.event_time v.ex.last_update_time
      then some v
      else buffer_level e (level_of e v.ex) v.state
          (update_level e id book_seq_num (level_of e v.ex).0 v.ex)
  dispatch_type EventType.trade e id book_seq_num v = with_exchange v.state (
      replay_print lib e id book_seq_num v.ex
        (engine.match_feed (event_call e id book_seq_num) e.qty v.ex.book))

  unfoldable pub dispatch_event : Event → (id book_seq_num : ℕ) → Live B → Option (Live B)
  dispatch_event e id book_seq_num v = dispatch_type e.type e id book_seq_num v

  -- A dispatched event's own ids are noted.
  unfoldable pub noted : Event → Option (Live B) → Option (Live B)
  noted e none = none
  noted e (some v) = some (record v {
    state = record (v.state) { last_sequence_id = e.sequence_id; last_seq_num = e.seq_num };
  })

  -- One released event. `ids` gives the order id of the event that the book's sequence stamps.
  unfoldable pub release : (ids : ℕ → ℕ) → Event → List Event → Live B → Option (Live B)
  release ids e rest v =
      let n = next_book_seq (lib.last_seq_num v.ex.book.l3) v.state in
      let popped = record (v.state) { pending_events = rest; next_book_seq_num = n } in
      noted e (dispatch_event e (ids n) n (record v { state = popped }))

  unfoldable pub and_then : (Live B → Option (Live B)) → Option (Live B) → Option (Live B)
  and_then f none = none
  and_then f (some v) = f v

  -- The loop of processSequencedEvents on one instrument.
  unfoldable pub process_events :
      (force : Bool) → (now : ℕ) → (ids : ℕ → ℕ) → List Event → Live B → Option (Live B)
  process_events force now ids [] v = some v
  process_events force now ids (e ∷ es) v =
      if is_ready force now v.state.last_event_time e
      then and_then (process_events force now ids es) (release ids e es v)
      else some v

  unfoldable pub process_sequenced_events :
      (force : Bool) → (now : ℕ) → (ids : ℕ → ℕ) → Live B → Option (Live B)
  process_sequenced_events force now ids v = process_events force now ids v.state.pending_events v
