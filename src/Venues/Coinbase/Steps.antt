-- ===== src/Venues/Coinbase/Steps.antt =====
-- The queue of an instrument while batches come in and events are released, in any order.
use slick_sim.Prelude.{ℕ, ◌≡◌, Bool, List, [], ◌∷◌, ◌++◌, some, reverse}
use slick_sim.OrderBook.L3.{OrderBookL3}
use slick_sim.Exchange.Symbol.{Engine}
use slick_sim.Exchange.Session.{Exchange}
use slick_sim.Venues.Coinbase.{
  EventType, Event, SymbolEventState, FeedItem, enqueue, enqueue_rest, enqueue_batch,
  on_level2_updates, on_market_trades,
}
use slick_sim.Venues.Coinbase.Order.{
  InOrder, IsDispatchOrder, InOrder-dispatch, dispatch-InOrder, push_event-InOrder,
}
use slick_sim.Venues.Coinbase.Dispatch.{Live, process_sequenced_events}
use slick_sim.Venues.Coinbase.Dispatch.Queue.{processed}

module _ {B : Type 0} (lib : OrderBookL3 B) (engine : Engine B) (no_index : ℕ) where
  -- One step: a batch of level updates or of trades, a turn of the release loop, or what a client's
  -- request or a subscription does to the exchange.
  pub data Step (v v' : Live B) : Type 0 where
    level2_updates :
        (clock : ℕ → ℕ) (seq_num : ℕ) (updates : List FeedItem)
        → v' ≡ record v { state = on_level2_updates clock seq_num updates v.state }
        → Step v v'
    market_trades :
        (clock : ℕ → ℕ) (seq_num : ℕ) (trades : List FeedItem)
        → v' ≡ record v { state = on_market_trades clock seq_num trades v.state }
        → Step v v'
    release_events :
        (force : Bool) (now : ℕ) (ids : ℕ → ℕ)
        → process_sequenced_events lib engine no_index force now ids v ≡ some v'
        → Step v v'
    exchange_changes : (ex : Exchange B) → v' ≡ record v { ex = ex } → Step v v'

  pub data Reach (v : Live B) : Live B → Type 0 where
    here : Reach v v
    next : {mid to : Live B} → Reach v mid → Step mid to → Reach v to

rest-InOrder :
    (type : EventType) (clock : ℕ → ℕ) (seq_num : ℕ) (us : List FeedItem) (s : SymbolEventState)
    → InOrder s.pending_events
    → InOrder (enqueue_rest type clock seq_num us s).pending_events
unfolding enqueue_rest enqueue
rest-InOrder type clock seq_num [] s h = h
rest-InOrder type clock seq_num (u ∷ us) s h =
    rest-InOrder type clock seq_num us _ (push_event-InOrder _ s.pending_events h)

batch-InOrder :
    (type : EventType) (clock : ℕ → ℕ) (seq_num : ℕ) (us : List FeedItem) (s : SymbolEventState)
    → InOrder s.pending_events
    → InOrder (enqueue_batch type clock seq_num us s).pending_events
unfolding enqueue_batch enqueue
batch-InOrder type clock seq_num [] s h = h
batch-InOrder type clock seq_num (u ∷ us) s h =
    rest-InOrder type clock seq_num us _ (push_event-InOrder _ s.pending_events h)

suffix-InOrder : (xs ys : List Event) → InOrder (xs ++ ys) → InOrder ys
suffix-InOrder [] ys h = h
suffix-InOrder (x ∷ xs) ys h = suffix-InOrder xs ys h.1

module _ {B : Type 0} (lib : OrderBookL3 B) (engine : Engine B) (no_index : ℕ) where
  abbrev Ordered : Live B → Type 0
  Ordered v = InOrder v.state.pending_events

  Step-InOrder : {v v' : Live B} → Step lib engine no_index v v' → Ordered v → Ordered v'
  unfolding on_level2_updates on_market_trades
  Step-InOrder {v} (level2_updates clock seq_num updates is) h =
      rw is (batch-InOrder EventType.level_update clock seq_num (reverse updates) v.state h)
  Step-InOrder {v} (market_trades clock seq_num trades is) h =
      rw is (batch-InOrder EventType.trade clock seq_num trades v.state h)
  Step-InOrder {v} {v'} (release_events force now ids is) h =
      let p = processed lib engine no_index force now ids v v' is in
      suffix-InOrder p.events v'.state.pending_events (rw p.split at h)
  Step-InOrder (exchange_changes ex is) h = rw is h

  Reach-Ordered : {v v' : Live B} → Ordered v → Reach lib engine no_index v v' → Ordered v'
  Reach-Ordered h here = h
  Reach-Ordered h (next r s) = Step-InOrder s (Reach-Ordered h r)

  -- From a queue in the order of dispatch, whatever batches come and whatever is released, the queue is in
  -- the order of dispatch: the earliest time goes first, at one time a trade goes before a level update,
  -- and of two events of one time and type the later one goes first.
  pub Reach-InOrder :
      (v v' : Live B)
      → IsDispatchOrder v.state.pending_events
      → Reach lib engine no_index v v'
      → IsDispatchOrder v'.state.pending_events
  Reach-InOrder v v' h r =
      InOrder-dispatch v'.state.pending_events
        (Reach-Ordered (dispatch-InOrder v.state.pending_events h) r)
