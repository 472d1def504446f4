-- ===== src/Examples/Market.antt =====
-- Market events on the small book.
use slick_sim.Prelude.{ℕ, ◌≡◌, ◌-◌, refl, true, false, Bool, List, [], ◌∷◌, eqb}
use slick_sim.Common.Enums.{Side}
use slick_sim.Common.MarketData.{action_delete}
use slick_sim.OrderBook.L3.{RestingOrder}
use slick_sim.OrderBook.Mirror.{delete_l3}
use slick_sim.Exchange.Symbol.{fifo_engine}
use slick_sim.Exchange.Session.{Exchange, publish_trade_subscription_response}
use slick_sim.Exchange.Requests.{on_book}
use slick_sim.Exchange.Requests.Settled.{IsSettled}
use slick_sim.Exchange.MarketEvents.{
  MarketOrderEvent, choose_reductions, mark_market_changed, flush_market_events,
  act_on_market_order, marked, apply_market_order,
}
use slick_sim.Exchange.MarketEvents.Reductions.{
  market_qty, reduced_qty, names, Empties, choose_reductions_lem,
}
use slick_sim.Exchange.MarketEvents.Steps.{
  here, next, market_order, subscription, flush_market_events-IsSettled,
}
use slick_sim.Examples.Book.{Sells, sell_book}
use slick_sim.Examples.Session.{trade, venue, venue-IsSettled}

abbrev gone : MarketOrderEvent
gone = record {
  book_order_id = 1;
  book_priority = 1;
  price = 100;
  transact_time = 9;
  qty = 0;
  side = Side.sell;
  action = action_delete;
  requeue = false;
}

abbrev changed : Exchange Sells
changed = mark_market_changed (on_book (delete_l3 sell_book 1 9 0 true) venue)

flush_market_events-IsSettled_example :
    IsSettled (trade 0 0) 64 (flush_market_events (publish_trade_subscription_response 1 changed))
unfolding apply_market_order act_on_market_order marked
flush_market_events-IsSettled_example =
    flush_market_events-IsSettled (trade 0 0) 64 sell_book (fifo_engine sell_book 5) venue
      (publish_trade_subscription_response 1 changed) venue-IsSettled
      (next (next here (market_order gone refl)) (subscription 1 refl))

-- From the back of a queue, in which order 2 is a client's.
abbrev queue : List RestingOrder
queue =
    record { order_id = 4; quantity = 3; priority = 4 }
    ∷ record { order_id = 2; quantity = 6; priority = 2 }
    ∷ record { order_id = 1; quantity = 5; priority = 1 }
    ∷ []

abbrev client : ℕ → Bool
client id = eqb id 2

choose_reductions_lem_example :
    let rs = choose_reductions client 4 queue in
    (reduced_qty client rs queue ≡ market_qty client queue - 4)
    × ((id : ℕ) → client id ≡ true → names id rs ≡ false)
    × Empties rs
choose_reductions_lem_example = choose_reductions_lem client 4 queue (refl, (refl, (refl, tt)))
