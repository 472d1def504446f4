-- ===== src/Venues/Coinbase/Dispatch/Answered.antt =====
-- What the dispatch of an event and the release loop return, with an engine whose matches end.
use slick_sim.Prelude.{
  ℕ, ◌≡◌, refl, Bool, List, [], ◌∷◌, Option, none, some, ltb, Bool-cases, inl, inr,
}
use slick_sim.OrderBook.L3.{PriceLevelL3, OrderBookL3}
use slick_sim.OrderBook.State.{State}
use slick_sim.MatchingEngine.Fifo.{FeedCall}
use slick_sim.Exchange.Symbol.{Engine}
use slick_sim.Exchange.Session.{Exchange}
use slick_sim.Venues.Coinbase.{EventType, Event, is_ready}
use slick_sim.Venues.Coinbase.Dispatch.{
  Live, next_book_seq, event_call, level_of, open_level, replay_print, update_level, buffer_level,
  with_exchange, dispatch_type, dispatch_event, noted, release, and_then, process_events,
}

abbrev pub Returns : {A : Type 0} → Option A → Type 0
Returns {A} o = (a : A) × (o ≡ some a)

-- Every match of market liquidity comes to an end.
abbrev pub Answers : {B : Type 0} → Engine B → Type 0
Answers {B} engine = (f : FeedCall) (qty : ℕ) (st : State B) → Returns (engine.match_feed f qty st)

module _ {B : Type 0} (lib : OrderBookL3 B) (engine : Engine B) (no_index : ℕ)
    (answers : Answers engine) where
  update_level-Returns :
      (e : Event) (id n : ℕ) (before : Option PriceLevelL3) (ex : Exchange B)
      → Returns (update_level lib engine no_index e id n before ex)
  unfolding update_level open_level
  update_level-Returns e id n none ex =
      let (p, is) = answers (event_call e id n) e.qty ex.book in rw is (_, refl)
  update_level-Returns e id n (some l) ex = (_, refl)

  dispatch_type-Returns :
      (type : EventType) (e : Event) (id n : ℕ) (v : Live B)
      → Returns (dispatch_type lib engine no_index type e id n v)
  unfolding dispatch_type buffer_level with_exchange replay_print
  dispatch_type-Returns EventType.level_update e id n v =
      elim (Bool-cases (ltb e.event_time v.ex.last_update_time)) [
        | inl stale ↦ rw stale (v, refl)
        | inr fresh ↦
            (let (r, is) =
                update_level-Returns e id n (level_of lib engine no_index e v.ex).0 v.ex in
              rw (fresh, is) (_, refl))
      ]
  dispatch_type-Returns EventType.trade e id n v =
      let (p, is) = answers (event_call e id n) e.qty v.ex.book in rw is (_, refl)

  pub dispatch_event-Returns :
      (e : Event) (id n : ℕ) (v : Live B) → Returns (dispatch_event lib engine no_index e id n v)
  unfolding dispatch_event
  dispatch_event-Returns e id n v = dispatch_type-Returns e.type e id n v

  release-Returns :
      (ids : ℕ → ℕ) (e : Event) (rest : List Event) (v : Live B)
      → Returns (release lib engine no_index ids e rest v)
  unfolding release noted
  release-Returns ids e rest v =
      let n = next_book_seq (lib.last_seq_num v.ex.book.l3) v.state in
      let popped = record (v.state) { pending_events = rest; next_book_seq_num = n } in
      let (v', is) = dispatch_event-Returns e (ids n) n (record v { state = popped }) in
      rw is (_, refl)

  pub process_events-Returns :
      (force : Bool) (now : ℕ) (ids : ℕ → ℕ) (es : List Event) (v : Live B)
      → Returns (process_events lib engine no_index force now ids es v)
  unfolding process_events and_then
  process_events-Returns force now ids [] v = (v, refl)
  process_events-Returns force now ids (e ∷ es) v =
      elim (Bool-cases (is_ready force now v.state.last_event_time e)) [
        | inl r ↦
            (let (v1, is) = release-Returns ids e es v in
              rw (r, is) (process_events-Returns force now ids es v1))
        | inr w ↦ rw w (v, refl)
      ]
