-- ===== src/Exchange/MarketEvents.antt =====
-- exchange/exchange.cpp and market_events.hpp: what the market does to the book. An order-by-order feed
-- rests, changes and removes phantom orders and replays trades; a level feed moves the phantom quantity
-- of a level towards the venue's.
pub mod Reductions
pub mod Matched
pub mod Steps
use slick_sim.Prelude.{
  ℕ, ◌+◌, ◌-◌, Bool, true, false, not, ◌&&◌, List, [], ◌∷◌, Option, none, some, ltb, if◌then◌else◌,
  reverse, is_some, min,
}
use slick_sim.Prelude.Int.{ℤ, pos, pos_part, ◌-ℤ◌}
use slick_sim.Common.Enums.{Side}
use slick_sim.Common.MarketData.{MdUpdateAction}
use slick_sim.OrderBook.L3.{RestingOrder, PriceLevelL3, OrderBookL3}
use slick_sim.OrderBook.State.{State, contains}
use slick_sim.OrderBook.Mirror.{
  level_at, get_md_level_qty, find_resting, add_l3, modify_l3, delete_l3, add_book_order,
}
use slick_sim.MatchingEngine.Fifo.{FeedCall, Progress, resting_side}
use slick_sim.Exchange.TradedCredit.{take_traded_qty}
use slick_sim.Exchange.Symbol.{Engine}
use slick_sim.Exchange.Session.{Exchange, publish_trade_summaries, flush_market_data_caches}
use slick_sim.Exchange.Requests.{on_book}

pub record MarketOrderEvent : Type 0 where
  pub book_order_id : ℕ
  pub book_priority : ℕ
  pub price : ℕ
  pub transact_time : ℕ
  pub qty : ℕ
  pub side : Side
  pub action : MdUpdateAction
  pub requeue : Bool

pub record MarketTradeEvent : Type 0 where
  pub price : ℕ
  pub qty : ℕ
  pub aggressor : Side
  pub transact_time : ℕ

pub record PhantomReduction : Type 0 where
  pub order_id : ℕ
  pub new_qty : ℕ
  pub priority : ℕ

unfoldable pub reduction : RestingOrder → (to_reduce : ℕ) → PhantomReduction
reduction o to_reduce = record {
  order_id = o.order_id;
  new_qty = o.quantity - to_reduce;
  priority = o.priority;
}

-- The reductions that take `diff` from the orders, which come from the back of the queue, and pass over
-- those that are the simulator's own.
unfoldable pub choose_reductions :
    (own : ℕ → Bool) → (diff : ℕ) → List RestingOrder → List PhantomReduction
choose_reductions own diff [] = []
choose_reductions own diff (o ∷ os) =
    let passed = choose_reductions own diff os in
    let to_reduce = min diff o.quantity in
    let chosen = reduction o to_reduce ∷ choose_reductions own (diff - to_reduce) os in
    if not (ltb 0 diff) then [] else if own o.order_id then passed else chosen

-- The quantity that a level update reports, less what it does not reflect.
unfoldable pub offset_target : (target_qty unreflected : ℕ) → ℕ
offset_target target_qty unreflected =
    if ltb 0 unreflected
    then (if ltb unreflected target_qty then target_qty - unreflected else 0)
    else target_qty

-- The last reduction carries the end of the event.
unfoldable pub is_last : (end_event : Bool) → List PhantomReduction → Bool
is_last end_event [] = end_event
is_last end_event (r ∷ rs) = false

-- The arguments of a match of market liquidity of a side.
unfoldable pub feed_call : Side → (order_id price transact_time : ℕ) → FeedCall
feed_call side order_id price transact_time = record {
  side = resting_side side;
  order_id = order_id;
  price = price;
  event_time = transact_time;
  seq_num = 0;
}

module _ {B : Type 0} where
  -- markMarketChanged
  unfoldable pub mark_market_changed : Exchange B → Exchange B
  mark_market_changed ex = record ex { market_changed = true }

  -- flushMarketEvents
  unfoldable pub flush_market_events : Exchange B → Exchange B
  flush_market_events ex =
      if ex.market_changed
      then record (flush_market_data_caches ex) { market_changed = false }
      else ex

  -- The tape of a match of market liquidity, and the book that it leaves.
  unfoldable pub printed_feed : Progress B → Exchange B → Exchange B
  printed_feed p ex =
      publish_trade_summaries (reverse p.ctx.summaries) (record ex { book = p.ctx.st })

module _ {B : Type 0} (lib : OrderBookL3 B) where
  unfoldable pub apply_reductions :
      (price event_time seq_num : ℕ)
      → (end_event : Bool) → List PhantomReduction
      → State B
      → State B
  apply_reductions price event_time seq_num end_event [] st = st
  apply_reductions price event_time seq_num end_event (r ∷ rs) st =
      apply_reductions price event_time seq_num end_event rs (
        modify_l3 lib r.order_id price r.new_qty event_time r.priority seq_num
          (is_last end_event rs) st)

  -- What reconcilePhantomQty does at a level that it finds. `id` is the next order id.
  unfoldable pub reconcile_level :
      Side
      → (price target_qty event_time seq_num id : ℕ) → (end_event : Bool) → PriceLevelL3
      → State B
      → State B
  reconcile_level side price target_qty event_time seq_num id end_event l st =
      let more = pos_part (pos target_qty -ℤ get_md_level_qty price st) in
      let less = pos_part (get_md_level_qty price st -ℤ pos target_qty) in
      if ltb 0 more
      then add_book_order lib id side price more event_time seq_num end_event st
      else apply_reductions price event_time seq_num end_event
          (choose_reductions (λ j. contains j st.orders) less (reverse l.orders)) st

  unfoldable pub reconcile_found :
      Side
      → (price target_qty event_time seq_num id : ℕ) → (end_event : Bool) → Option PriceLevelL3
      → Exchange B
      → Exchange B
  reconcile_found side price target_qty event_time seq_num id end_event none ex = ex
  reconcile_found side price target_qty event_time seq_num id end_event (some l) ex =
      let (unreflected, credits) = take_traded_qty side price event_time ex.credits in
      on_book
        (reconcile_level side price (offset_target target_qty unreflected) event_time seq_num id
          end_event l)
        (record ex { credits = credits })

  -- reconcilePhantomQty
  unfoldable pub reconcile_phantom_qty :
      Side
      → (price target_qty event_time seq_num id : ℕ) → (end_event : Bool) → Exchange B
      → Exchange B
  reconcile_phantom_qty side price target_qty event_time seq_num id end_event ex =
      reconcile_found side price target_qty event_time seq_num id end_event
        (level_at price (lib.levels side ex.book.l3)) ex

module _ {B : Type 0} (lib : OrderBookL3 B) (engine : Engine B) where
  -- What is left of a market order after it filled clients rests under its own priority.
  unfoldable pub rest_left :
      MarketOrderEvent → Exchange B → Option (Progress B) → Option (Exchange B)
  rest_left e ex none = none
  rest_left e ex (some p) =
      let printed = printed_feed p ex in
      some (
        if ltb 0 p.qty
        then on_book
            (add_l3 lib e.book_order_id e.side e.price p.qty e.transact_time e.book_priority 0 true)
            printed
        else printed)

  -- restMarketOrder
  unfoldable pub rest_market_order : MarketOrderEvent → Exchange B → Option (Exchange B)
  rest_market_order e ex =
      rest_left e ex
        (engine.match_feed (feed_call e.side e.book_order_id e.price e.transact_time) e.qty ex.book)

  unfoldable pub change_market_order :
      MarketOrderEvent → Option RestingOrder → Exchange B → Option (Exchange B)
  change_market_order e none ex = rest_market_order e ex
  change_market_order e (some o) ex =
      if e.requeue
      then rest_market_order e (on_book (delete_l3 lib e.book_order_id e.transact_time 0 true) ex)
      else some (
          on_book (modify_l3 lib e.book_order_id e.price e.qty e.transact_time o.priority 0 true)
            ex)

  unfoldable pub act_on_market_order :
      MdUpdateAction → MarketOrderEvent → Exchange B → Option (Exchange B)
  act_on_market_order MdUpdateAction.action_new e ex = rest_market_order e ex
  act_on_market_order MdUpdateAction.action_delete e ex =
      some (on_book (delete_l3 lib e.book_order_id e.transact_time 0 true) ex)
  act_on_market_order MdUpdateAction.action_change e ex =
      change_market_order e (find_resting lib e.book_order_id ex.book) ex

  unfoldable pub marked : Option (Exchange B) → Option (Exchange B)
  marked none = none
  marked (some ex) = some (mark_market_changed ex)

  -- applyMarketOrder
  unfoldable pub apply_market_order : MarketOrderEvent → Exchange B → Option (Exchange B)
  apply_market_order e ex = marked (act_on_market_order e.action e ex)

  unfoldable pub replayed : Exchange B → Option (Progress B) → Option (Exchange B)
  replayed ex none = none
  replayed ex (some p) = some (mark_market_changed (printed_feed p ex))

  -- replayMarketTrade. `id` is the next order id.
  unfoldable pub replay_market_trade :
      MarketTradeEvent → (id : ℕ) → Exchange B → Option (Exchange B)
  replay_market_trade e id ex =
      replayed ex
        (engine.match_feed (feed_call e.aggressor id e.price e.transact_time) e.qty ex.book)
