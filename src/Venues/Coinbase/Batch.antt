-- ===== src/Venues/Coinbase/Batch.antt =====
-- How a batch of the feed stands in the queue once it is queued whole.
use slick_sim.Prelude.{
  ℕ, zero, suc, ◌≡◌, ◌+◌, refl, ap, sym, ◌∙◌, Bool, true, false, ◌&&◌, ◌||◌, List, [], ◌∷◌, ◌++◌,
  map, reverse, reverse-reverse, append-reverse, All-reverse, length, length-reverse, replicate,
  replicate-snoc, append_assoc, arith, eqb, ltb, All,
}
use slick_sim.Venues.Coinbase.Order.{types_turn}
use slick_sim.Venues.Coinbase.{
  EventType, Event, compare_types, event_compare, push_event, SymbolEventState, FeedItem,
  feed_event, enqueue, enqueue_rest, enqueue_batch, on_level2_updates, on_market_trades,
}

-- What an event reports.
abbrev pub item : Event → FeedItem
item e = record { time = e.event_time; price = e.price; qty = e.qty; side = e.side }

abbrev pub closes : Event → Bool
closes e = e.end_event

-- A batch in the order in which it is dispatched: only the last event closes it.
abbrev pub end_marks : ℕ → List Bool
end_marks zero = []
end_marks (suc n) = replicate n false ++ (true ∷ [])

-- Whether an event has to wait for one of this type, time and sequence id.
abbrev pub is_behind : EventType → (time sequence_id : ℕ) → Event → Bool
is_behind type time sequence_id e =
    ltb time e.event_time
    || (eqb time e.event_time && compare_types e.type type e.sequence_id sequence_id)

abbrev pub AreBehind : EventType → (time sequence_id : ℕ) → List Event → Type 0
AreBehind type time sequence_id es = All (λ e. is_behind type time sequence_id e ≡ true) es

abbrev pub HaveTime : ℕ → List FeedItem → Type 0
HaveTime time us = All (λ u. u.time ≡ time) us

types_later :
    (a b : EventType) (i j : ℕ) → compare_types a b i j ≡ true → compare_types a b i (j + 1) ≡ true
unfolding compare_types
types_later EventType.trade EventType.trade i j h = ground arith
types_later EventType.trade EventType.level_update i j h = cc
types_later EventType.level_update EventType.trade i j h = refl
types_later EventType.level_update EventType.level_update i j h = ground arith

types_next : (a : EventType) (i : ℕ) → compare_types a a i (i + 1) ≡ true
unfolding compare_types
types_next EventType.trade i = ground arith
types_next EventType.level_update i = ground arith

behind_later :
    (type : EventType) (time k : ℕ) (es : List Event)
    → AreBehind type time k es
    → AreBehind type time (k + 1) es
behind_later type time k [] h = tt
behind_later type time k (e ∷ es) h =
    (ground (arith, types_later e.type type e.sequence_id k), behind_later type time k es h.1)

behind_waits :
    (e x : Event) → is_behind e.type e.event_time e.sequence_id x ≡ true → event_compare e x ≡ false
unfolding event_compare
behind_waits e x h = ground (arith, types_turn x.type e.type x.sequence_id e.sequence_id)

goes_first :
    (e : Event) (es : List Event)
    → AreBehind e.type e.event_time e.sequence_id es
    → push_event e es ≡ e ∷ es
unfolding push_event
goes_first e [] h = refl
goes_first e (x ∷ xs) h = rw (behind_waits e x h.0) refl

module _ (type : EventType) (clock : ℕ → ℕ) (seq_num : ℕ) (time : ℕ) where
  -- A queue in which the events of a batch stand before `es`, in reverse.
  enqueue-first :
      (received_time : ℕ) (end_event : Bool) (u : FeedItem) (s : SymbolEventState)
      → u.time ≡ time
      → AreBehind type time s.next_sequence_id s.pending_events
      → (enqueue type received_time seq_num end_event u s).pending_events
        ≡ feed_event type received_time s.next_sequence_id seq_num end_event u ∷ s.pending_events
  unfolding enqueue feed_event
  enqueue-first received_time end_event u s at h =
      goes_first (feed_event type received_time s.next_sequence_id seq_num end_event u)
        s.pending_events (simp at h)

  enqueue-AreBehind :
      (received_time : ℕ) (end_event : Bool) (u : FeedItem) (s : SymbolEventState)
      → u.time ≡ time
      → AreBehind type time s.next_sequence_id s.pending_events
      → AreBehind type time
          (s.next_sequence_id + 1)
          (enqueue type received_time seq_num end_event u s).pending_events
  unfolding enqueue feed_event
  enqueue-AreBehind received_time end_event u s at h =
      rw (enqueue-first received_time end_event u s at h) (
        ground (arith, types_next type s.next_sequence_id, at),
        behind_later type time s.next_sequence_id s.pending_events h,
      )

  rest-items :
      (us : List FeedItem) (s : SymbolEventState)
      → HaveTime time us
      → AreBehind type time s.next_sequence_id s.pending_events
      → (map item (enqueue_rest type clock seq_num us s).pending_events
          ≡ reverse us ++ map item s.pending_events)
        × (map closes (enqueue_rest type clock seq_num us s).pending_events
            ≡ replicate (length us) false ++ map closes s.pending_events)
  unfolding enqueue_rest enqueue feed_event
  rest-items [] s at h = (refl, refl)
  rest-items (u ∷ us) s at h =
      let first = enqueue-first (clock s.next_sequence_id) false u s at.0 h in
      let (items, marks) =
        rest-items us (enqueue type (clock s.next_sequence_id) seq_num false u s) at.1
          (enqueue-AreBehind (clock s.next_sequence_id) false u s at.0 h) in
      (
        items
            ∙ (ap (λ es. reverse us ++ map item es) first
                ∙ append-reverse u us (map item s.pending_events)),
        marks
            ∙ (ap (λ es. replicate (length us) false ++ map closes es) first
                ∙ (sym (
                      append_assoc (replicate (length us) false) (false ∷ [])
                        (map closes s.pending_events))
                    ∙ ap (λ zs. zs ++ map closes s.pending_events)
                        (replicate-snoc (length us) false))),
      )

  -- The state after the loop over a batch.
  batch-items :
      (us : List FeedItem) (s : SymbolEventState)
      → HaveTime time us
      → AreBehind type time s.next_sequence_id s.pending_events
      → (map item (enqueue_batch type clock seq_num us s).pending_events
          ≡ reverse us ++ map item s.pending_events)
        × (map closes (enqueue_batch type clock seq_num us s).pending_events
            ≡ end_marks (length us) ++ map closes s.pending_events)
  unfolding enqueue_batch enqueue feed_event
  batch-items [] s at h = (refl, refl)
  batch-items (u ∷ us) s at h =
      let first = enqueue-first (clock s.next_sequence_id) true u s at.0 h in
      let (items, marks) =
        rest-items us (enqueue type (clock s.next_sequence_id) seq_num true u s) at.1
          (enqueue-AreBehind (clock s.next_sequence_id) true u s at.0 h) in
      (
        items
            ∙ (ap (λ es. reverse us ++ map item es) first
                ∙ append-reverse u us (map item s.pending_events)),
        marks
            ∙ (ap (λ es. replicate (length us) false ++ map closes es) first
                ∙ sym (
                    append_assoc (replicate (length us) false) (true ∷ [])
                      (map closes s.pending_events))),
      )

-- A level2 batch of one time, before which nothing in the queue has to go, is dispatched first and in
-- the order in which it lists its updates, and its last update alone closes it. What was queued before,
-- and of the same time, comes after it.
pub on_level2_updates_lem :
    (clock : ℕ → ℕ) (seq_num time : ℕ) (updates : List FeedItem) (s : SymbolEventState)
    → HaveTime time updates
    → AreBehind EventType.level_update time s.next_sequence_id s.pending_events
    → let after = on_level2_updates clock seq_num updates s in
      (map item after.pending_events ≡ updates ++ map item s.pending_events)
      × (map closes after.pending_events
          ≡ end_marks (length updates) ++ map closes s.pending_events)
unfolding on_level2_updates
on_level2_updates_lem clock seq_num time updates s at h =
    let (items, marks) =
      batch-items EventType.level_update clock seq_num time (reverse updates) s
        (All-reverse (λ u. u.time ≡ time) updates at) h in
    (
      items ∙ ap (λ us. us ++ map item s.pending_events) (reverse-reverse updates),
      marks ∙ ap (λ n. end_marks n ++ map closes s.pending_events) (length-reverse updates),
    )

-- A batch of trades of one time, before which nothing in the queue has to go, is dispatched first, the
-- trade it lists last at the front, and the trade it lists first, the newest, alone closes it.
pub on_market_trades_lem :
    (clock : ℕ → ℕ) (seq_num time : ℕ) (trades : List FeedItem) (s : SymbolEventState)
    → HaveTime time trades
    → AreBehind EventType.trade time s.next_sequence_id s.pending_events
    → let after = on_market_trades clock seq_num trades s in
      (map item after.pending_events ≡ reverse trades ++ map item s.pending_events)
      × (map closes after.pending_events ≡ end_marks (length trades) ++ map closes s.pending_events)
unfolding on_market_trades
on_market_trades_lem clock seq_num time trades s at h =
    batch-items EventType.trade clock seq_num time trades s at h
