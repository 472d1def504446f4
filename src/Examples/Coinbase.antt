-- ===== src/Examples/Coinbase.antt =====
-- The live feed of Coinbase on the small book.
use slick_sim.Prelude.{
  ℕ, ◌≡◌, ◌⊎◌, ◌+◌, ◌++◌, refl, true, false, List, [], ◌∷◌, map, Option, none, some, arith, ltb,
}
use slick_sim.Common.Enums.{Side}
use slick_sim.Common.MarketData.{MdLevel, MdUpdateAction}
use slick_sim.OrderBook.State.{State}
use slick_sim.MatchingEngine.Fifo.{Progress, start, fifo_match, fifo_match_feed}
use slick_sim.Exchange.Symbol.{Engine}
use slick_sim.Exchange.Session.{level}
use slick_sim.Venues.Coinbase.{
  EventType, Event, SymbolEventState, FeedItem, on_level2_updates, on_market_trades,
}
use slick_sim.Venues.Coinbase.Order.{IsDispatchOrder}
use slick_sim.Venues.Coinbase.Batch.{item, closes, end_marks, on_level2_updates_lem}
use slick_sim.Venues.Coinbase.Dispatch.{Live, dispatch_event, process_sequenced_events}
use slick_sim.Venues.Coinbase.Dispatch.Queue.{IsProcessed, Released, process_sequenced_events_lem}
use slick_sim.Venues.Coinbase.Dispatch.Answered.{Answers, Returns, dispatch_event-Returns}
use slick_sim.Venues.Coinbase.Dispatch.Drained.{process_sequenced_events-drains}
use slick_sim.Venues.Coinbase.Dispatch.Level.{IsShown, dispatch_event-IsShown}
use slick_sim.Venues.Coinbase.Dispatch.Buffer.{
  all_rows, buffer_rows, buffer_rows-all, buffer_rows-splits,
}
use slick_sim.Venues.Coinbase.Steps.{here, next, level2_updates, market_trades, Reach-InOrder}
use slick_sim.Venues.Coinbase.Feed.{Feed}
use slick_sim.Examples.Book.{Sells, sell_book}
use slick_sim.Examples.Session.{venue}

abbrev quote : (time price qty : ℕ) → FeedItem
quote time price qty = record { time = time; price = price; qty = qty; side = Side.sell }

abbrev batch : List FeedItem
batch = quote 100 7 1 ∷ quote 100 8 2 ∷ []

abbrev clock : ℕ → ℕ
clock id = id + 50

abbrev quiet : SymbolEventState
quiet = record {
  pending_events = [];
  last_event_time = 0;
  last_sequence_id = 0;
  last_seq_num = 0;
  next_sequence_id = 0;
  last_published_level_seq_num = 0;
  level_update_buffer = [];
  next_book_seq_num = 0;
}

abbrev idle : Live Sells
idle = record { ex = venue; state = quiet }

on_level2_updates_lem_example :
    let after = on_level2_updates clock 3 batch quiet in
    (map item after.pending_events ≡ batch ++ [])
    × (map closes after.pending_events ≡ end_marks 2 ++ [])
on_level2_updates_lem_example = on_level2_updates_lem clock 3 100 batch quiet (refl, (refl, tt)) tt

-- A match that runs out of turns leaves the book alone.
abbrev or_start : ℕ → State Sells → Option (Progress Sells) → Progress Sells
or_start qty st none = start st qty
or_start qty st (some p) = p

abbrev pub steady : Engine Sells
steady = record {
  match_order = fifo_match sell_book 9;
  match_feed = λ f qty st. some (or_start qty st (fifo_match_feed sell_book 9 f qty st));
}

pub steady-Answers : Answers steady
steady-Answers f qty st = (or_start qty st (fifo_match_feed sell_book 9 f qty st), refl)

abbrev ids : ℕ → ℕ
ids n = n + 70

abbrev batched : Live Sells
batched = record idle { state = on_level2_updates clock 3 batch quiet }

Reach-InOrder_example :
    IsDispatchOrder
      (on_market_trades clock 4
        (quote 100 7 1 ∷ [])
        (on_level2_updates clock 3 batch quiet)).pending_events
Reach-InOrder_example =
    Reach-InOrder sell_book steady 0 idle
      (record batched { state = on_market_trades clock 4 (quote 100 7 1 ∷ []) batched.state }) tt
      (next (next here (level2_updates clock 3 batch refl))
        (market_trades clock 4 (quote 100 7 1 ∷ []) refl))

abbrev print : Event
print = record {
  type = EventType.trade;
  received_time = 50;
  event_time = 100;
  sequence_id = 1;
  seq_num = 4;
  price = 100;
  qty = 2;
  side = Side.buy;
  end_event = true;
}

abbrev waiting : Live Sells
waiting = record idle { state = record quiet { pending_events = print ∷ [] } }

process_sequenced_events-drains_example :
    (v' : Live Sells) × (process_sequenced_events sell_book steady 0 false 2_000_000_000 ids waiting
      ≡ some v')
    × (v'.state.pending_events ≡ [])
    × Released sell_book steady 0 ids (print ∷ []) waiting v'
process_sequenced_events-drains_example =
    process_sequenced_events-drains sell_book steady 0 steady-Answers false 2_000_000_000 ids
      waiting ((omega arith, omega arith), tt)

process_sequenced_events_lem_example :
    (v' : Live Sells) × (process_sequenced_events sell_book steady 0 false 2_000_000_000 ids waiting
      ≡ some v')
    × IsProcessed sell_book steady 0 false 2_000_000_000 0 ids (print ∷ []) waiting v'
process_sequenced_events_lem_example =
    process_sequenced_events_lem sell_book steady 0 steady-Answers false 2_000_000_000 ids waiting

abbrev update : Event
update = record print { type = EventType.level_update; side = Side.sell; price = 105 }

abbrev updated : Returns (dispatch_event sell_book steady 0 update 71 6 idle)
updated = dispatch_event-Returns sell_book steady 0 steady-Answers update 71 6 idle

dispatch_event-IsShown_example :
    ((ltb 100 5 ≡ true) × (updated.0 ≡ idle))
    ⊎ ((ltb 100 5 ≡ false) × IsShown sell_book steady 0 update updated.0)
dispatch_event-IsShown_example =
    dispatch_event-IsShown sell_book steady 0 update 71 6 idle updated.0 refl updated.1

abbrev row : (seq_num price : ℕ) → MdLevel
row seq_num price = record {
  event_time = 100;
  seq_num = seq_num;
  price = price;
  qty = 1;
  num_orders = 1;
  level_index = 0;
  update_action = MdUpdateAction.action_change;
  flags = record { is_snapshot = false; end_event = false; not_in_book = false };
  side = Side.sell;
}

abbrev buffered : Live Sells
buffered = record idle {
  state = record quiet {
    level_update_buffer = row 3 8 ∷ row 3 7 ∷ [];
    last_published_level_seq_num = 3;
  };
}

buffer_rows-all_example :
    all_rows (buffer_rows (row 4 7 ∷ row 5 8 ∷ []) buffered)
    ≡ all_rows buffered ++ (row 4 7 ∷ row 5 8 ∷ [])
buffer_rows-all_example = buffer_rows-all (row 4 7 ∷ row 5 8 ∷ []) buffered

buffer_rows-splits_example :
    let after = buffer_rows (row 4 9 ∷ row 4 10 ∷ []) buffered in
    (after.ex.md_queue ≡ level (row 4 9 ∷ []) ∷ level (row 3 7 ∷ row 3 8 ∷ []) ∷ [])
    × (after.state.level_update_buffer ≡ row 4 10 ∷ [])
buffer_rows-splits_example =
    buffer_rows-splits (row 3 8) (row 4 9) (row 4 10) (row 3 7 ∷ []) buffered refl refl refl
      (λ e. omega (arith, e)) (λ e. omega (arith, e))

abbrev feed : Feed Sells
feed = record { live = buffered; l2_pending = true; trades_pending = true; num_subscriptions = 1 }
