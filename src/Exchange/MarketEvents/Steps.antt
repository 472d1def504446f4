-- ===== src/Exchange/MarketEvents/Steps.antt =====
-- An exchange between requests and events of an order-by-order feed: what every reachable state keeps.
use slick_sim.Prelude.{ℕ, ◌≡◌, false, Option, none, some, reverse, ltb, Bool-cases, inl, inr}
use slick_sim.Common.MarketData.{MdTrade, MdUpdateAction}
use slick_sim.Common.Messages.{Request, OrderResponse}
use slick_sim.OrderBook.L3.{RestingOrder, OrderBookL3}
use slick_sim.OrderBook.State.{publish}
use slick_sim.OrderBook.Mirror.{find_resting}
use slick_sim.OrderBook.Allocation.{Allotment}
use slick_sim.MatchingEngine.Fifo.{Progress}
use slick_sim.Exchange.Symbol.{Engine}
use slick_sim.Exchange.Session.{Exchange, publish_frame, publish_trade_subscription_response}
use slick_sim.Exchange.Session.Tape.{tape}
use slick_sim.Exchange.Requests.{on_book, process_request}
use slick_sim.Exchange.Requests.Settled.{
  CachesEmpty, Keeps, on_book-Keeps, after_match-Keeps, flush-Keeps, flush_market_data_caches-empty,
  process_request-Holds, IsSettled,
}
use slick_sim.Exchange.MarketEvents.{
  MarketOrderEvent, MarketTradeEvent, mark_market_changed, flush_market_events, printed_feed,
  rest_left, rest_market_order, change_market_order, act_on_market_order, marked,
  apply_market_order, replayed, replay_market_trade,
}

module _ {B : Type 0} (lib : OrderBookL3 B) (engine : Engine B) where
  -- One step: a request, a market order or trade, the end of a feed's packet, a subscription.
  pub data Step (ex ex' : Exchange B) : Type 0 where
    request :
        (r : Request) (a : Allotment) (now later : ℕ)
        → process_request lib engine r a now later ex ≡ some ex'
        → Step ex ex'
    market_order :
        (e : MarketOrderEvent) → apply_market_order lib engine e ex ≡ some ex' → Step ex ex'
    market_trade :
        (e : MarketTradeEvent) (id : ℕ)
        → replay_market_trade lib engine e id ex ≡ some ex'
        → Step ex ex'
    packet_end : ex' ≡ flush_market_events ex → Step ex ex'
    subscription :
        (channel : ℕ) → ex' ≡ publish_trade_subscription_response channel ex → Step ex ex'

  pub data Reach (ex : Exchange B) : Exchange B → Type 0 where
    here : Reach ex ex
    next : {mid to : Exchange B} → Reach ex mid → Step mid to → Reach ex to

module _ {B : Type 0} (blank : MdTrade) (capacity : ℕ) where
  -- Unless a market event has yet to be published, no update waits in a cache.
  abbrev pub FlushedUnlessChanged : Exchange B → Type 0
  FlushedUnlessChanged ex = ex.market_changed ≡ false → CachesEmpty ex

  abbrev pub IsTracked : Exchange B → Type 0
  IsTracked ex = FlushedUnlessChanged ex × Keeps blank capacity ex

  reject-FlushedUnlessChanged :
      (fill : OrderResponse → OrderResponse) (ex : Exchange B)
      → FlushedUnlessChanged ex
      → FlushedUnlessChanged (on_book (publish fill) ex)
  unfolding on_book publish
  reject-FlushedUnlessChanged fill ex h = h

  -- A changed instrument is tracked whatever waits.
  mark-IsTracked : (ex : Exchange B) → Keeps blank capacity ex → IsTracked (mark_market_changed ex)
  unfolding mark_market_changed
  mark-IsTracked ex (t, a) = (
    λ e. cc,
    (
      record { history = t.history; numbered = t.numbered },
      record { below = a.below; one_user = a.one_user },
    ),
  )

  -- Whatever is returned.
  abbrev EnsuresKeeps : Option (Exchange B) → Type 0
  EnsuresKeeps none = Unit {0}
  EnsuresKeeps (some ex) = Keeps blank capacity ex

  printed_feed-Keeps :
      (p : Progress B) (ex : Exchange B)
      → Keeps blank capacity ex
      → Keeps blank capacity (printed_feed p ex)
  unfolding printed_feed
  printed_feed-Keeps p ex k =
      after_match-Keeps blank capacity p.ctx.st (reverse p.ctx.summaries) ex k

  -- A flush leaves nothing to publish, and no update in a cache.
  flush_market_events-Tracked :
      (ex : Exchange B)
      → IsTracked ex
      → CachesEmpty (flush_market_events ex) × Keeps blank capacity (flush_market_events ex)
  unfolding flush_market_events
  flush_market_events-Tracked ex (f, k) = elim (Bool-cases ex.market_changed) [
    | inl e ↦
        (let (t, a) = flush-Keeps blank capacity ex k in
          simp e (
            flush_market_data_caches-empty ex,
            (
              record { history = t.history; numbered = t.numbered },
              record { below = a.below; one_user = a.one_user },
            ),
          ))
    | inr e ↦ simp e (f e, k)
  ]

  subscription-IsTracked :
      (channel : ℕ) (ex : Exchange B)
      → IsTracked ex
      → IsTracked (publish_trade_subscription_response channel ex)
  unfolding publish_trade_subscription_response publish_frame tape
  subscription-IsTracked channel ex (f, (t, a)) = (
    f,
    (
      record { history = t.history; numbered = t.numbered },
      record { below = a.below; one_user = a.one_user },
    ),
  )

  module _ (lib : OrderBookL3 B) (engine : Engine B) where
    rest_left-EnsuresKeeps :
        (e : MarketOrderEvent) (ex : Exchange B) (o : Option (Progress B))
        → Keeps blank capacity ex
        → EnsuresKeeps (rest_left lib engine e ex o)
    unfolding rest_left
    rest_left-EnsuresKeeps e ex none k = tt
    rest_left-EnsuresKeeps e ex (some p) k =
        let k' = printed_feed-Keeps p ex k in
        elim (Bool-cases (ltb 0 p.qty)) [
          | inl l ↦ rw l (on_book-Keeps blank capacity _ (printed_feed p ex) k')
          | inr l ↦ rw l k'
        ]

    change-EnsuresKeeps :
        (e : MarketOrderEvent) (o : Option RestingOrder) (ex : Exchange B)
        → Keeps blank capacity ex
        → EnsuresKeeps (change_market_order lib engine e o ex)
    unfolding change_market_order rest_market_order
    change-EnsuresKeeps e none ex k = rest_left-EnsuresKeeps e ex _ k
    change-EnsuresKeeps e (some o) ex k = elim (Bool-cases e.requeue) [
      | inl q ↦ simp q (rest_left-EnsuresKeeps e _ _ (on_book-Keeps blank capacity _ ex k))
      | inr q ↦ simp q (on_book-Keeps blank capacity _ ex k)
    ]

    act-EnsuresKeeps :
        (action : MdUpdateAction) (e : MarketOrderEvent) (ex : Exchange B)
        → Keeps blank capacity ex
        → EnsuresKeeps (act_on_market_order lib engine action e ex)
    unfolding act_on_market_order rest_market_order
    act-EnsuresKeeps MdUpdateAction.action_new e ex k = rest_left-EnsuresKeeps e ex _ k
    act-EnsuresKeeps MdUpdateAction.action_delete e ex k = on_book-Keeps blank capacity _ ex k
    act-EnsuresKeeps MdUpdateAction.action_change e ex k =
        change-EnsuresKeeps e (find_resting lib e.book_order_id ex.book) ex k

    marked-IsTracked :
        (o : Option (Exchange B)) (ex' : Exchange B)
        → EnsuresKeeps o
        → marked lib engine o ≡ some ex'
        → IsTracked ex'
    unfolding marked
    marked-IsTracked none ex' k e = cc
    marked-IsTracked (some ex) ex' k e =
        let is : mark_market_changed ex ≡ ex' = cc in rw is at (mark-IsTracked ex k)

    replayed-IsTracked :
        (ex ex' : Exchange B) (o : Option (Progress B))
        → Keeps blank capacity ex
        → replayed lib engine ex o ≡ some ex'
        → IsTracked ex'
    unfolding replayed
    replayed-IsTracked ex ex' none k e = cc
    replayed-IsTracked ex ex' (some p) k e =
        let is : mark_market_changed (printed_feed p ex) ≡ ex' = cc in
        rw is at (mark-IsTracked (printed_feed p ex) (printed_feed-Keeps p ex k))

    Step-IsTracked : {ex ex' : Exchange B} → Step lib engine ex ex' → IsTracked ex → IsTracked ex'
    unfolding apply_market_order replay_market_trade
    Step-IsTracked {ex} {ex'} (request r a now later e) h =
        process_request-Holds blank capacity FlushedUnlessChanged (λ ex h' _. h')
          reject-FlushedUnlessChanged lib engine r a now later ex ex' h e
    Step-IsTracked {ex} {ex'} (market_order e returns) h =
        marked-IsTracked _ ex' (act-EnsuresKeeps e.action e ex h.1) returns
    Step-IsTracked {ex} {ex'} (market_trade e id returns) h =
        replayed-IsTracked ex ex' _ h.1 returns
    Step-IsTracked {ex} (packet_end is) h =
        (let (f, k) = flush_market_events-Tracked ex h in rw is (λ _. f, k))
    Step-IsTracked {ex} (subscription channel is) h = rw is (subscription-IsTracked channel ex h)

    Reach-IsTracked : {ex ex' : Exchange B} → IsTracked ex → Reach lib engine ex ex' → IsTracked ex'
    Reach-IsTracked h here = h
    Reach-IsTracked h (next r s) = Step-IsTracked s (Reach-IsTracked h r)

    -- From a settled exchange, after any requests, market orders, market trades, packet ends and
    -- subscriptions in any order: a flush of the market events leaves no update in a cache, the tape's
    -- ids have no gap and the history is its newest part, and every identity is of one user.
    pub flush_market_events-IsSettled :
        (ex ex' : Exchange B)
        → IsSettled blank capacity ex
        → Reach lib engine ex ex'
        → IsSettled blank capacity (flush_market_events ex')
    flush_market_events-IsSettled ex ex' h r =
        let (f, k) =
          flush_market_events-Tracked ex' (Reach-IsTracked (λ _. h.flushed, h.keeps) r) in
        record { flushed = f; keeps = k }
