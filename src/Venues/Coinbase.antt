-- ===== src/Venues/Coinbase.antt =====
-- venues/coinbase/: the live feed of one instrument. Events queue by the venue's time, so that a trade and
-- the level update that reflects it meet the book in the right order. The connection, the subscriptions
-- and the JSON are left out.
pub mod Order
pub mod Batch
pub mod Dispatch
pub mod Steps
pub mod Feed
use slick_sim.Prelude.{
  ℕ, ◌+◌, ◌-◌, ◌%◌, ◌^◌, Bool, true, false, not, ◌&&◌, ◌||◌, List, [], ◌∷◌, ◌++◌, reverse, eqb, ltb,
  leb, if◌then◌else◌,
}
use slick_sim.Common.Enums.{Side}
use slick_sim.Common.MarketData.{MdLevel}

pub data EventType : Type 0 where
  level_update trade : EventType

-- Of the flags an event carries only the end of its batch.
pub record Event : Type 0 where
  pub type : EventType
  pub received_time : ℕ
  pub event_time : ℕ
  pub sequence_id : ℕ
  pub seq_num : ℕ
  pub price : ℕ
  pub qty : ℕ
  pub side : Side
  pub end_event : Bool

-- EventCompare at one time: a trade goes before a level update, and of two events of one type the one
-- that was queued last.
unfoldable pub compare_types : EventType → EventType → (sequence_a sequence_b : ℕ) → Bool
compare_types EventType.trade EventType.trade sequence_a sequence_b = ltb sequence_a sequence_b
compare_types EventType.level_update EventType.level_update sequence_a sequence_b =
    ltb sequence_a sequence_b
compare_types EventType.trade EventType.level_update sequence_a sequence_b = false
compare_types EventType.level_update EventType.trade sequence_a sequence_b = true

-- EventCompare: `a` is dispatched after `b`.
unfoldable pub event_compare : Event → Event → Bool
event_compare a b =
    if not (eqb a.event_time b.event_time)
    then ltb b.event_time a.event_time
    else compare_types a.type b.type a.sequence_id b.sequence_id

-- std::priority_queue, as the list of its events in the order in which it gives them out.
unfoldable pub push_event : Event → List Event → List Event
push_event e [] = e ∷ []
push_event e (x ∷ xs) = if event_compare e x then (x ∷ push_event e xs) else (e ∷ (x ∷ xs))

pub record SymbolEventState : Type 0 where
  pub pending_events : List Event
  pub last_event_time : ℕ
  pub last_sequence_id : ℕ
  pub last_seq_num : ℕ
  pub next_sequence_id : ℕ
  pub last_published_level_seq_num : ℕ
  -- level_update_buffer_, the last row first.
  pub level_update_buffer : List MdLevel
  pub next_book_seq_num : ℕ

-- One update of a level2 batch, or one market trade: what the venue reports.
pub record FeedItem : Type 0 where
  pub time : ℕ
  pub price : ℕ
  pub qty : ℕ
  pub side : Side

unfoldable pub feed_event :
    EventType → (received_time sequence_id seq_num : ℕ) → (end_event : Bool) → FeedItem → Event
feed_event type received_time sequence_id seq_num end_event u = record {
  type = type;
  received_time = received_time;
  event_time = u.time;
  sequence_id = sequence_id;
  seq_num = seq_num;
  price = u.price;
  qty = u.qty;
  side = u.side;
  end_event = end_event;
}

-- The body of the two loops that queue a batch.
unfoldable pub enqueue :
    EventType
    → (received_time seq_num : ℕ) → (end_event : Bool) → FeedItem
    → SymbolEventState
    → SymbolEventState
enqueue type received_time seq_num end_event u s =
    let e = feed_event type received_time s.next_sequence_id seq_num end_event u in
    record s {
      next_sequence_id = s.next_sequence_id + 1;
      last_event_time = if ltb s.last_event_time u.time then u.time else s.last_event_time;
      pending_events = push_event e s.pending_events;
    }

-- The rest of a batch in the order of the loop. `clock` is the time at which an event of this sequence
-- id is queued.
unfoldable pub enqueue_rest :
    EventType
    → (clock : ℕ → ℕ) → (seq_num : ℕ) → List FeedItem
    → SymbolEventState
    → SymbolEventState
enqueue_rest type clock seq_num [] s = s
enqueue_rest type clock seq_num (u ∷ us) s =
    enqueue_rest type clock seq_num us (enqueue type (clock s.next_sequence_id) seq_num false u s)

-- The item that the loop visits first carries the end of the batch.
unfoldable pub enqueue_batch :
    EventType
    → (clock : ℕ → ℕ) → (seq_num : ℕ) → List FeedItem
    → SymbolEventState
    → SymbolEventState
enqueue_batch type clock seq_num [] s = s
enqueue_batch type clock seq_num (u ∷ us) s =
    enqueue_rest type clock seq_num us (enqueue type (clock s.next_sequence_id) seq_num true u s)

-- onLevel2Updates: the batch lists the oldest update first, and the loop walks it backwards.
unfoldable pub on_level2_updates :
    (clock : ℕ → ℕ) → (seq_num : ℕ) → List FeedItem → SymbolEventState → SymbolEventState
on_level2_updates clock seq_num updates s =
    enqueue_batch EventType.level_update clock seq_num (reverse updates) s

-- onMarketTrades: the batch lists the newest trade first, and the loop walks it forwards.
unfoldable pub on_market_trades :
    (clock : ℕ → ℕ) → (seq_num : ℕ) → List FeedItem → SymbolEventState → SymbolEventState
on_market_trades clock seq_num trades s = enqueue_batch EventType.trade clock seq_num trades s

abbrev pub one_second_ns : ℕ
one_second_ns = 1_000_000_000

-- Whether the event at the top of the queue is released. The time in the queue is a 64-bit difference.
unfoldable pub is_ready : (force : Bool) → (now last_event_time : ℕ) → Event → Bool
is_ready force now last_event_time e =
    force
    || ((ltb 0 last_event_time && leb (e.event_time + one_second_ns) last_event_time)
        || leb one_second_ns ((now + (2 ^ 64 - e.received_time)) % 2 ^ 64))
