-- ===== src/Venues/Coinbase/Dispatch/Queue.antt =====
-- Which events processSequencedEvents releases, and what the queue keeps.
use slick_sim.Prelude.{
  ℕ, ◌≡◌, ◌<◌, refl, ap, sym, ◌∙◌, Bool, true, false, List, [], ◌∷◌, ◌++◌, Option, none, some,
  arith, eqb, ltb, All, Bool-cases, inl, inr,
}
use slick_sim.Common.MarketData.{MdUpdateAction, MdLevel}
use slick_sim.OrderBook.L3.{PriceLevelL3, OrderBookL3}
use slick_sim.Exchange.Symbol.{Engine}
use slick_sim.Exchange.Session.{Exchange}
use slick_sim.Venues.Coinbase.{EventType, Event, SymbolEventState, is_ready}
use slick_sim.Venues.Coinbase.Dispatch.Answered.{Answers, process_events-Returns}
use slick_sim.Venues.Coinbase.Dispatch.Handled.{Whenever, IsHandled, dispatch_type-IsHandled}
use slick_sim.Venues.Coinbase.Dispatch.{
  Live, next_book_seq, first_published, flush_rows, buffer_row, buffer_level, with_exchange,
  dispatch_type, dispatch_event, noted, release, and_then, process_events, process_sequenced_events,
}

-- The fields that the dispatch of an event leaves alone.
record Same (s t : SymbolEventState) : Type 0 where
  pending : t.pending_events ≡ s.pending_events
  time : t.last_event_time ≡ s.last_event_time
  stamps : t.next_book_seq_num ≡ s.next_book_seq_num

pub next_book_seq_lem :
    (book_seq : ℕ) (s : SymbolEventState)
    → (book_seq < next_book_seq book_seq s) × (s.next_book_seq_num < next_book_seq book_seq s)
unfolding next_book_seq
next_book_seq_lem book_seq s = elim (Bool-cases (ltb s.next_book_seq_num book_seq)) [
  | inl l ↦ rw l (ground arith, ground arith)
  | inr l ↦ rw l (ground arith, ground arith)
]

-- The event at the top of a queue is not ready.
abbrev pub Waits : (force : Bool) → (now last_event_time : ℕ) → List Event → Type 0
Waits force now last_event_time [] = Unit
Waits force now last_event_time (e ∷ es) = is_ready force now last_event_time e ≡ false

module _ {B : Type 0} where
  flush_rows-Same :
      (seq_num : ℕ) (rows : List MdLevel) (v : Live B)
      → Same v.state (flush_rows seq_num rows v).state
  unfolding flush_rows
  flush_rows-Same seq_num [] v = record { pending = refl; time = refl; stamps = refl }
  flush_rows-Same seq_num (l ∷ ls) v =
      elim (Bool-cases (eqb seq_num v.state.last_published_level_seq_num)) [
        | inl e ↦ rw e (record { pending = refl; time = refl; stamps = refl })
        | inr e ↦ rw e (record { pending = refl; time = refl; stamps = refl })
      ]

  buffer_row-Same : (row : MdLevel) (v : Live B) → Same v.state (buffer_row row v).state
  unfolding buffer_row first_published
  buffer_row-Same row v =
      let same =
        flush_rows-Same row.seq_num v.state.level_update_buffer
          (record v { state = first_published row.seq_num v.state }) in
      record { pending = same.pending; time = same.time; stamps = same.stamps }

module _ {B : Type 0} (lib : OrderBookL3 B) (engine : Engine B) (no_index : ℕ) where
  buffer_level-Same :
      (e : Event) (before : Option PriceLevelL3 × ℕ) (s : SymbolEventState)
      (o : Option (MdUpdateAction × Exchange B))
      → Whenever (λ v. Same s v.state) (buffer_level lib engine no_index e before s o)
  unfolding buffer_level
  buffer_level-Same e before s none = tt
  buffer_level-Same e before s (some (action, ex)) = buffer_row-Same _ _

  with_exchange-Same :
      (s : SymbolEventState) (o : Option (Exchange B))
      → Whenever (λ v. Same s v.state) (with_exchange lib engine no_index s o)
  unfolding with_exchange
  with_exchange-Same s none = tt
  with_exchange-Same s (some ex) = record { pending = refl; time = refl; stamps = refl }

  dispatch_type-Same :
      (type : EventType) (e : Event) (id n : ℕ) (v : Live B)
      → Whenever (λ v'. Same v.state v'.state) (dispatch_type lib engine no_index type e id n v)
  unfolding dispatch_type
  dispatch_type-Same EventType.level_update e id n v =
      elim (Bool-cases (ltb e.event_time v.ex.last_update_time)) [
        | inl stale ↦ rw stale (record { pending = refl; time = refl; stamps = refl })
        | inr fresh ↦ rw fresh (buffer_level-Same e _ v.state _)
      ]
  dispatch_type-Same EventType.trade e id n v = with_exchange-Same v.state _

  -- An event of the queue was released: it left the queue, the book took it under a stamp above the last
  -- one and above the book's, and its own ids were noted.
  pub record IsReleased (ids : ℕ → ℕ) (e : Event) (rest : List Event) (v v' : Live B) : Type 0 where
    pub pending : v'.state.pending_events ≡ rest
    pub time : v'.state.last_event_time ≡ v.state.last_event_time
    pub stamp : v.state.next_book_seq_num < v'.state.next_book_seq_num
    pub current : lib.last_seq_num v.ex.book.l3 < v'.state.next_book_seq_num
    pub handled :
        IsHandled lib engine no_index e.type e
          (ids v'.state.next_book_seq_num)
          v'.state.next_book_seq_num
          v
          v'
    pub sequence_id : v'.state.last_sequence_id ≡ e.sequence_id
    pub seq_num : v'.state.last_seq_num ≡ e.seq_num

  -- The events were released one after another.
  abbrev pub Released : (ids : ℕ → ℕ) → List Event → (v v' : Live B) → Type 0
  Released ids [] v v' = v' ≡ v
  Released ids (e ∷ es) v v' =
      (rest : List Event) × (mid : Live B) × IsReleased ids e rest v mid × Released ids es mid v'

  -- Neither the queue and the stamp nor the event's own ids have a part in it.
  noted-IsHandled :
      (type : EventType) (e : Event) (id n : ℕ) (s : SymbolEventState) (v v' : Live B)
      → s.level_update_buffer ≡ v.state.level_update_buffer
      → IsHandled lib engine no_index type e id n (record v { state = s }) v'
      → IsHandled lib engine no_index type e id n v (record v' {
        state = record (v'.state) { last_sequence_id = e.sequence_id; last_seq_num = e.seq_num };
      })
  noted-IsHandled EventType.trade e id n s v v' same (taken, kept) = (taken, kept ∙ same)
  noted-IsHandled EventType.level_update e id n s v v' same (inl (stale, kept, rows)) =
      inl (stale, kept, rows ∙ same)
  noted-IsHandled EventType.level_update e id n s v v' same (inr (fresh, updated, shown)) = inr (
    fresh,
    updated,
    record {
      row = shown.row;
      buffered = shown.buffered;
      price = shown.price;
      seq_num = shown.seq_num;
      qty = shown.qty;
      num_orders = shown.num_orders;
      deleted = shown.deleted;
      updated = shown.updated;
    },
  )

  released :
      (ids : ℕ → ℕ) (e : Event) (rest : List Event) (n : ℕ) (v : Live B) (o : Option (Live B))
      → (lib.last_seq_num v.ex.book.l3 < n) × (v.state.next_book_seq_num < n)
      → let popped = record v {
        state = record (v.state) { pending_events = rest; next_book_seq_num = n };
      } in
        Whenever (λ v'. Same popped.state v'.state) o
        → Whenever (IsHandled lib engine no_index e.type e (ids n) n popped) o
        → Whenever (IsReleased ids e rest v) (noted lib engine no_index e o)
  unfolding noted
  released ids e rest n v none h same handled = tt
  released ids e rest n v (some v') (c, m) same handled =
      let at : v'.state.next_book_seq_num ≡ n = same.stamps in
      record {
        pending = same.pending;
        time = same.time;
        stamp = ground (arith, at);
        current = ground (arith, at);
        handled = rw (sym at) at (
            noted-IsHandled e.type e (ids n) n
              (record (v.state) { pending_events = rest; next_book_seq_num = n }) v v' refl
              handled);
        sequence_id = refl;
        seq_num = refl;
      }

  release_lem :
      (ids : ℕ → ℕ) (e : Event) (rest : List Event) (v : Live B)
      → Whenever (IsReleased ids e rest v) (release lib engine no_index ids e rest v)
  unfolding release dispatch_event
  release_lem ids e rest v =
      released ids e rest _ v _ (next_book_seq_lem (lib.last_seq_num v.ex.book.l3) v.state)
        (dispatch_type-Same e.type e _ _ _)
        (dispatch_type-IsHandled lib engine no_index e.type e _ _ _)

  -- What the loop over the queue `es` of `v` did: the events that were released and how, that they were
  -- ready, and that the next one waits.
  pub record IsProcessed (force : Bool) (now last_event_time : ℕ) (ids : ℕ → ℕ) (es : List Event)
      (v v' : Live B) : Type 0 where
    pub events : List Event
    pub split : es ≡ events ++ v'.state.pending_events
    pub ready : All (λ e. is_ready force now last_event_time e ≡ true) events
    pub waits : Waits force now last_event_time v'.state.pending_events
    pub released_all : Released ids events v v'

  module _ (force : Bool) (now last_event_time : ℕ) (ids : ℕ → ℕ) where
    after_release :
        (e : Event) (es : List Event) (v v' : Live B) (o : Option (Live B))
        → is_ready force now last_event_time e ≡ true
        → v.state.last_event_time ≡ last_event_time
        → ((v1 : Live B)
            → v1.state.pending_events ≡ es
            → v1.state.last_event_time ≡ last_event_time
            → process_events lib engine no_index force now ids es v1 ≡ some v'
            → IsProcessed force now last_event_time ids es v1 v')
        → Whenever (IsReleased ids e es v) o
        → and_then lib engine no_index (process_events lib engine no_index force now ids es) o
          ≡ some v'
        → IsProcessed force now last_event_time ids (e ∷ es) v v'
    unfolding and_then
    after_release e es v v' none is at rest r h = cc
    after_release e es v v' (some v1) is at rest r h =
        let p = rest v1 r.pending (r.time ∙ at) h in
        record {
          events = e ∷ p.events;
          split = ap (λ xs. e ∷ xs) p.split;
          ready = (is, p.ready);
          waits = p.waits;
          released_all = (es, v1, r, p.released_all);
        }

    nothing_ready :
        (es : List Event) (v v' : Live B)
        → v.state.pending_events ≡ es
        → v.state.last_event_time ≡ last_event_time
        → Waits force now last_event_time es
        → some v ≡ some v'
        → IsProcessed force now last_event_time ids es v v'
    nothing_ready es v v' at time w h =
        let is : v' ≡ v = cc in
        rw is
          (record { events = []; split = sym at; ready = tt; waits = rw at w; released_all = refl })

    process_events-IsProcessed :
        (es : List Event) (v v' : Live B)
        → v.state.pending_events ≡ es
        → v.state.last_event_time ≡ last_event_time
        → process_events lib engine no_index force now ids es v ≡ some v'
        → IsProcessed force now last_event_time ids es v v'
    unfolding process_events
    process_events-IsProcessed [] v v' at time h = nothing_ready [] v v' at time tt h
    process_events-IsProcessed (e ∷ es) v v' at time h =
        let tests = ap (λ t. is_ready force now t e) time in
        elim (Bool-cases (is_ready force now v.state.last_event_time e)) [
          | inl now_ready ↦
              after_release e es v v' (release lib engine no_index ids e es v)
                (sym tests ∙ now_ready) time (λ v1. process_events-IsProcessed es v1 v')
                (release_lem ids e es v) (rw now_ready at h)
          | inr not_ready ↦
              nothing_ready (e ∷ es) v v' at time (sym tests ∙ not_ready) (rw not_ready at h)
        ]

  pub processed :
      (force : Bool) (now : ℕ) (ids : ℕ → ℕ) (v v' : Live B)
      → process_sequenced_events lib engine no_index force now ids v ≡ some v'
      → IsProcessed force now v.state.last_event_time ids v.state.pending_events v v'
  unfolding process_sequenced_events
  processed force now ids v v' h =
      process_events-IsProcessed force now v.state.last_event_time ids v.state.pending_events v v'
        refl refl h

  -- With an engine whose matches end, a turn of the loop ends. It releases the events at the front of the
  -- queue that are ready, one after another: each meets the book under a new stamp, above the last one and
  -- above the book's. A trade is matched and what is left of it rests; a level update older than the book
  -- changes nothing, one at a price with no level is matched and what is left rests, one at a level that is
  -- there reconciles the market's quantity, and the buffer then shows the level as the book holds it. The
  -- queue keeps the rest, whose first event is not ready.
  pub process_sequenced_events_lem :
      Answers engine
      → (force : Bool) (now : ℕ) (ids : ℕ → ℕ) (v : Live B)
      → (v' : Live B) × (process_sequenced_events lib engine no_index force now ids v ≡ some v')
        × IsProcessed force now v.state.last_event_time ids v.state.pending_events v v'
  unfolding process_sequenced_events
  process_sequenced_events_lem answers force now ids v =
      let (v', is) =
        process_events-Returns lib engine no_index answers force now ids v.state.pending_events v in
      (v', is, processed force now ids v v' is)
