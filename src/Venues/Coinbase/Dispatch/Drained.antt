-- ===== src/Venues/Coinbase/Dispatch/Drained.antt =====
-- What a turn of the release loop leaves once every event has been in the queue for a second.
use slick_sim.Prelude.{
  ℕ, ◌≡◌, ◌+◌, ◌-◌, ◌%◌, ◌^◌, ◌<◌, ◌≤◌, refl, sym, ap, ◌∙◌, Bool, true, List, [], ◌∷◌, ◌++◌, some,
  arith, All, append-nil,
}
use slick_sim.OrderBook.L3.{OrderBookL3}
use slick_sim.Exchange.Symbol.{Engine}
use slick_sim.Venues.Coinbase.{Event, one_second_ns, is_ready}
use slick_sim.Venues.Coinbase.Dispatch.{Live, process_sequenced_events}
use slick_sim.Venues.Coinbase.Dispatch.Answered.{Answers}
use slick_sim.Venues.Coinbase.Dispatch.Queue.{Waits, Released, process_sequenced_events_lem}

-- The time in the queue reaches a second.
abbrev pub HasWaited : (now : ℕ) → Event → Type 0
HasWaited now e = (e.received_time + one_second_ns ≤ now) × (now < 2 ^ 64)

in_queue :
    (now received : ℕ)
    → received + one_second_ns ≤ now
    → now < 2 ^ 64
    → (now + (2 ^ 64 - received)) % 2 ^ 64 ≡ now - received
in_queue now received h l = omega arith

waited-ready :
    (force : Bool) (now last_event_time : ℕ) (e : Event)
    → HasWaited now e
    → is_ready force now last_event_time e ≡ true
unfolding is_ready
waited-ready force now last_event_time e h =
    let age = in_queue now e.received_time h.0 h.1 in ground arith

All-rest : (P : Event → Type 0) (xs ys : List Event) → All P (xs ++ ys) → All P ys
All-rest P [] ys h = h
All-rest P (x ∷ xs) ys h = All-rest P xs ys h.1

none_waits :
    (force : Bool) (now last_event_time : ℕ) (es : List Event)
    → All (HasWaited now) es
    → Waits force now last_event_time es
    → es ≡ []
none_waits force now last_event_time [] h w = refl
none_waits force now last_event_time (e ∷ es) h w =
    let is = waited-ready force now last_event_time e h.0 in cc

module _ {B : Type 0} (lib : OrderBookL3 B) (engine : Engine B) (no_index : ℕ)
    (answers : Answers engine) where
  -- With an engine whose matches end, and once all the events in the queue have been there for a second, a
  -- turn of the loop ends, hands every one of them to the book, in the order of the queue and each with a
  -- new and higher stamp, and leaves the queue empty.
  pub process_sequenced_events-drains :
      (force : Bool) (now : ℕ) (ids : ℕ → ℕ) (v : Live B)
      → All (HasWaited now) v.state.pending_events
      → (v' : Live B) × (process_sequenced_events lib engine no_index force now ids v ≡ some v')
        × (v'.state.pending_events ≡ [])
        × Released lib engine no_index ids v.state.pending_events v v'
  process_sequenced_events-drains force now ids v h =
      let (v', is, p) = process_sequenced_events_lem lib engine no_index answers force now ids v in
      let empty =
        none_waits force now v.state.last_event_time v'.state.pending_events
          (All-rest (HasWaited now) p.events v'.state.pending_events (rw p.split at h)) p.waits in
      let all : p.events ≡ v.state.pending_events =
        sym (p.split ∙ (ap (λ es. p.events ++ es) empty ∙ append-nil p.events)) in
      (v', is, empty, (rw all at p.released_all))
