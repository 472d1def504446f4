-- ===== src/Examples/Matching.antt =====
-- Runs of the FIFO engine on the sells of a small book.
use slick_sim.Prelude.{
  ◌≡◌, ◌≢◌, refl, arith, [], ◌∷◌, none, some, false, All, ap, ◌⊎◌, inl, inr, length,
}
use slick_sim.Common.Enums.{
  Side, OrderType, OrderStatus, TimeInForce, ProductType, SelfMatchPreventionMode, ExecType,
}
use slick_sim.Common.Reasons.{OrdRejectReason, MessageType}
use slick_sim.Common.Order.{Order, null_price}
use slick_sim.Common.Messages.{OrderResponse}
use slick_sim.OrderBook.State.{State}
use slick_sim.MatchingEngine.SelfMatch.{MatchCall, Reach}
use slick_sim.MatchingEngine.Prepare.{prepare_order}
use slick_sim.OrderBook.Levels.{Priced}
use slick_sim.MatchingEngine.Fifo.{FeedCall, Progress, MatchResult, fifo_match, fifo_match_feed}
use slick_sim.MatchingEngine.Fifo.Feed.{FeedEnd, fifo_match_feed-FeedEnd}
use slick_sim.MatchingEngine.Fifo.Match.{Answers, fifo_match-Answers, fifo_match_fill_or_kill}
use slick_sim.MatchingEngine.Limit.{reachable}
use slick_sim.Examples.Book.{Sells, sell_book, sell_book-IsOrderBookL3}
use slick_sim.OrderBook.L3.{PriceLevelL3, IsLevel}

abbrev pub someone : Order
someone = record {
  identity = record { symbol = "BTC"; user_id = "u"; client_order_id = "c"; order_id = "o" };
  id = 7;
  priority = 0;
  request_tag = 0;
  side = Side.buy;
  type = OrderType.limit;
  status = OrderStatus.pending_new;
  time_in_force = TimeInForce.fill_or_kill;
  product_type = ProductType.spot;
  post_only = false;
  pending_cancel = false;
  price = 101;
  quantity = 5;
  leaves_quantity = 5;
  avg_fill_price = 0;
  cum_quantity = 0;
  cum_value = 0;
  last_fill_price = 0;
  last_fill_qty = 0;
  num_fills = 0;
  client_id = some 1;
  created_time = 0;
  last_update_time = 0;
  last_fill_time = none;
  reject_message = "";
  cancel_message = "";
}

abbrev pub slot : OrderResponse
slot = record {
  identity = record { symbol = ""; user_id = ""; client_order_id = ""; order_id = "" };
  error_message = "";
  response_type = MessageType.execution_report;
  exec_type = ExecType.new;
  order_status = OrderStatus.new;
  order_type = OrderType.limit;
  time_in_force = TimeInForce.day;
  price = 0;
  last_fill_price = 0;
  avg_fill_price = 0;
  qty = 0;
  last_qty = 0;
  cum_qty = 0;
  leaves_qty = 0;
  reject_reason = OrdRejectReason.none;
  creation_time = 0;
  request_time = 0;
  timestamp = 0;
  side = Side.buy;
  post_only = false;
  order_num = 0;
  request_tag = 0;
  aggressor = false;
}

abbrev pub best : PriceLevelL3
best = record {
  price = 100;
  total_quantity = 4;
  orders =
      record { order_id = 1; quantity = 3; priority = 1 }
      ∷ record { order_id = 2; quantity = 1; priority = 2 }
      ∷ [];
}

abbrev pub next_best : PriceLevelL3
next_best = record {
  price = 101;
  total_quantity = 6;
  orders = record { order_id = 3; quantity = 6; priority = 3 } ∷ [];
}

abbrev pub sells_of_two : Sells
sells_of_two = record { levels = best ∷ next_best ∷ []; last = 10 }

-- Order 2 is a client's.
abbrev pub resting : State Sells
resting = record {
  l3 = sells_of_two;
  pool = λ j. record someone { id = j; client_id = some j };
  freed = [];
  orders = 2 ∷ 7 ∷ [];
  by_client_order_id = [];
  by_order_id = [];
  feed_md_level_quantity = [];
  next_priority = 0;
  level_cache = [];
  order_cache = [];
  responses = [];
  recycled = λ n. slot;
  next_trade_id = 0;
}

best-IsLevel : IsLevel best
best-IsLevel = record {
  nonempty = λ e. let f = ap length e in omega arith;
  positive = (omega arith, (omega arith, tt));
  totalled = refl;
}

next_best-IsLevel : IsLevel next_best
next_best-IsLevel = record {
  nonempty = λ e. let f = ap length e in omega arith;
  positive = (omega arith, tt);
  totalled = refl;
}

pub sells_of_two-IsBook : All IsLevel sells_of_two.levels
sells_of_two-IsBook = (best-IsLevel, (next_best-IsLevel, tt))

pub sells_of_two-Priced : Priced (λ x. x ≢ null_price) sells_of_two.levels
sells_of_two-Priced = (λ e. omega arith, (λ e. omega arith, tt))

abbrev feed : FeedCall
feed = record { side = Side.sell; order_id = 9; price = 101; event_time = 1; seq_num = 11 }

abbrev pub taking : MatchCall
taking = record {
  side = Side.sell;
  order = 7;
  order_price = 101;
  order_qty = 5;
  request_time = 1;
  event_time = 2;
  seq_num = 0;
  smp_mode = SelfMatchPreventionMode.none;
}

fifo_match_feed-FeedEnd_example :
    (p : Progress Sells) × (fifo_match_feed sell_book 5 feed 6 resting ≡ some p)
    × FeedEnd sell_book sell_book-IsOrderBookL3 feed 6 10 p
fifo_match_feed-FeedEnd_example =
    fifo_match_feed-FeedEnd sell_book sell_book-IsOrderBookL3 feed 5 6 resting sells_of_two-IsBook
      (inr (omega arith)) sells_of_two-Priced (omega arith)

fifo_match-Answers_example :
    let (ready, done) = prepare_order Reach.queue taking sells_of_two.levels resting in
    (r : MatchResult Sells) × (fifo_match sell_book 5 taking resting ≡ some r)
    × Answers sell_book sell_book-IsOrderBookL3 taking 10
        (reachable Side.sell 101 sells_of_two.levels)
        ready
        done
        r
fifo_match-Answers_example =
    fifo_match-Answers sell_book sell_book-IsOrderBookL3 taking 5 resting sells_of_two-IsBook
      (inl refl) sells_of_two-Priced (refl, (refl, tt)) (omega arith)

fifo_match_fill_or_kill_example :
    (r : MatchResult Sells) × (fifo_match sell_book 5 taking resting ≡ some r)
    × (((r.st.pool 7).leaves_quantity ≡ 0) ⊎ (r.summaries ≡ []))
fifo_match_fill_or_kill_example =
    fifo_match_fill_or_kill sell_book sell_book-IsOrderBookL3 taking 5 resting sells_of_two-IsBook
      (inl refl) sells_of_two-Priced (refl, (refl, tt)) (omega arith) refl refl (omega arith)
