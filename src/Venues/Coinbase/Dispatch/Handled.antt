-- ===== src/Venues/Coinbase/Dispatch/Handled.antt =====
-- What the dispatch of one event does to the book and to the buffer.
use slick_sim.Prelude.{
  ℕ, ◌+◌, ◌≡◌, ◌⊎◌, ◌<◌, ◌≤◌, refl, ap, ◌∙◌, List, [], ◌∷◌, Option, none, some, arith, reverse, eqb,
  ltb, Bool-cases, inl, inr,
}
use slick_sim.Common.Messages.{TradeSummaryInfo}
use slick_sim.Common.MarketData.{MdUpdateAction}
use slick_sim.OrderBook.L3.{PriceLevelL3, OrderBookL3}
use slick_sim.OrderBook.State.{State}
use slick_sim.OrderBook.Mirror.{level_at, add_book_order, add_l3}
use slick_sim.MatchingEngine.Fifo.{Progress}
use slick_sim.Exchange.Symbol.{Engine}
use slick_sim.Exchange.Session.{
  Exchange, publish_frame, publish_trade_summary, publish_trade_summaries, flush_market_data_caches,
}
use slick_sim.Exchange.Requests.Returns.{SameBook, flush-SameBook, publish_trade_summaries-book}
use slick_sim.Exchange.MarketEvents.Matched.{
  IsMatched, matched, joins_next, IsReconciled, reconciled,
}
use slick_sim.Venues.Coinbase.{EventType, Event, SymbolEventState}
use slick_sim.Venues.Coinbase.Dispatch.{
  Live, get_level, event_call, publish_credited, rest_event, open_level, replay_print, update_level,
  level_of, buffer_row, level_row, buffer_level, with_exchange, dispatch_type,
}
use slick_sim.Venues.Coinbase.Dispatch.Level.{IsShown, buffer_level-IsShown, buffer_row-book}

-- What holds of the result, where there is one.
abbrev pub Whenever : {A : Type 0} → (A → Type 0) → Option A → Type 0
Whenever P none = Unit {0}
Whenever P (some v) = P v

get_level-level_at :
    (no_index price i : ℕ) (ls : List PriceLevelL3)
    → (get_level no_index price i ls).0 ≡ level_at price ls
unfolding get_level level_at
get_level-level_at no_index price i [] = refl
get_level-level_at no_index price i (l ∷ ls) = elim (Bool-cases (eqb l.price price)) [
  | inl e ↦ rw e refl
  | inr e ↦ rw e (get_level-level_at no_index price (i + 1) ls)
]

publish_credited-book :
    {B : Type 0} (e : Event) (ss : List TradeSummaryInfo) (ex : Exchange B)
    → (publish_credited e ss ex).book ≡ ex.book
unfolding publish_credited publish_trade_summary publish_frame
publish_credited-book e [] ex = refl
publish_credited-book e (s ∷ ss) ex = publish_credited-book e ss _

module _ {B : Type 0} (lib : OrderBookL3 B) (engine : Engine B) (no_index : ℕ) where
  -- What is left of an event joins the back of the queue at its price, under the id that it drew.
  abbrev pub rests : Event → (id n : ℕ) → ℕ → State B → State B
  rests e id n = joins_next lib id e.side e.price e.event_time n e.end_event

  -- The event's quantity was matched, what was left rests, and the caches alone were published.
  abbrev pub IsTaken : Event → (id n : ℕ) → (before after : Exchange B) → Type 0
  IsTaken e id n before after =
      (st : State B) × IsMatched engine (event_call e id n) e.qty (rests e id n) before.book st
      × SameBook st after.book

  -- A level update at a price with no level is matched; a level that is there is reconciled.
  abbrev pub IsUpdated :
      Event → (id n : ℕ) → Option PriceLevelL3 → (before after : Exchange B) → Type 0
  IsUpdated e id n none before after = IsTaken e id n before after
  IsUpdated e id n (some l) before after =
      IsReconciled lib e.side e.price e.qty e.event_time n id e.end_event l before after

  -- A trade meets the book and leaves the buffer alone. A level update older than the book changes
  -- nothing, and any other is applied, and the buffer then shows its level as the book holds it.
  abbrev pub IsHandled : EventType → Event → (id n : ℕ) → (before after : Live B) → Type 0
  IsHandled EventType.trade e id n before after =
      IsTaken e id n before.ex after.ex
      × (after.state.level_update_buffer ≡ before.state.level_update_buffer)
  IsHandled EventType.level_update e id n before after =
      ((e.event_time < before.ex.last_update_time)
        × (after.ex ≡ before.ex)
        × (after.state.level_update_buffer ≡ before.state.level_update_buffer))
      ⊎ ((before.ex.last_update_time ≤ e.event_time)
          × IsUpdated e id n (level_at e.price (lib.levels e.side before.ex.book.l3)) before.ex
              after.ex
          × IsShown lib engine no_index e after)

  taken :
      (e : Event) (id n : ℕ) (ex : Exchange B) (p : Progress B)
      → engine.match_feed (event_call e id n) e.qty ex.book ≡ some p
      → IsMatched engine (event_call e id n) e.qty (rests e id n) ex.book (rest_event lib e id n p)
  unfolding rest_event add_book_order add_l3
  taken e id n ex p is = matched engine (event_call e id n) e.qty (rests e id n) ex.book p is

  SameBook-from :
      (st : State B) (before : Exchange B) (after : Exchange B)
      → before.book ≡ st
      → SameBook before.book after.book
      → SameBook st after.book
  SameBook-from st before after e (a, b, c, d) = (
    a ∙ ap (λ (s : State B). s.l3) e,
    b ∙ ap (λ (s : State B). s.orders) e,
    c ∙ ap (λ (s : State B). s.freed) e,
    d ∙ ap (λ (s : State B). s.responses) e,
  )

  open_level-IsTaken :
      (e : Event) (id n : ℕ) (ex : Exchange B) (o : Option (Progress B))
      → engine.match_feed (event_call e id n) e.qty ex.book ≡ o
      → Whenever (λ r. IsTaken e id n ex r.1) (open_level lib e id n ex o)
  unfolding open_level
  open_level-IsTaken e id n ex none is = tt
  open_level-IsTaken e id n ex (some p) is =
      let st = rest_event lib e id n p in
      let printed = publish_trade_summaries (reverse p.ctx.summaries) (record ex { book = st }) in
      (
        st,
        taken e id n ex p is,
        SameBook-from st printed (flush_market_data_caches printed)
            (publish_trade_summaries-book (reverse p.ctx.summaries) (record ex { book = st }))
            (flush-SameBook printed),
      )

  replay_print-IsTaken :
      (e : Event) (id n : ℕ) (ex : Exchange B) (o : Option (Progress B))
      → engine.match_feed (event_call e id n) e.qty ex.book ≡ o
      → Whenever (λ r. IsTaken e id n ex r) (replay_print lib e id n ex o)
  unfolding replay_print
  replay_print-IsTaken e id n ex none is = tt
  replay_print-IsTaken e id n ex (some p) is =
      let st = rest_event lib e id n p in
      let printed = publish_credited e (reverse p.ctx.summaries) (record ex { book = st }) in
      (
        st,
        taken e id n ex p is,
        SameBook-from st printed (flush_market_data_caches printed)
            (publish_credited-book e (reverse p.ctx.summaries) (record ex { book = st }))
            (flush-SameBook printed),
      )

  update_level-IsUpdated :
      (e : Event) (id n : ℕ) (found : Option PriceLevelL3) (ex : Exchange B)
      → level_at e.price (lib.levels e.side ex.book.l3) ≡ found
      → Whenever
          (λ r. IsUpdated e id n found ex r.1)
          (update_level lib engine no_index e id n found ex)
  unfolding update_level
  update_level-IsUpdated e id n none ex at = open_level-IsTaken e id n ex _ refl
  update_level-IsUpdated e id n (some l) ex at =
      reconciled lib e.side e.price e.qty e.event_time n id e.end_event l ex at

  IsUpdated-Same :
      (e : Event) (id n : ℕ) (found : Option PriceLevelL3) (before mid after : Exchange B)
      → after.book ≡ mid.book
      → after.credits ≡ mid.credits
      → IsUpdated e id n found before mid
      → IsUpdated e id n found before after
  IsUpdated-Same e id n none before mid after b c (st, is, (l, o, f, r)) = (
    st,
    is,
    (
      ap (λ (s : State B). s.l3) b ∙ l,
      ap (λ (s : State B). s.orders) b ∙ o,
      ap (λ (s : State B). s.freed) b ∙ f,
      ap (λ (s : State B). s.responses) b ∙ r,
    ),
  )
  IsUpdated-Same e id n (some l) before mid after b c (credits, more, less) =
      (c ∙ credits, λ h. b ∙ more h, λ h. b ∙ less h)

  buffer_level-IsHandled :
      (e : Event) (id n : ℕ) (found : Option PriceLevelL3) (before : Option PriceLevelL3 × ℕ)
      (s : SymbolEventState) (ex : Exchange B) (o : Option (MdUpdateAction × Exchange B))
      → Whenever (λ r. IsUpdated e id n found ex r.1) o
      → Whenever
          (λ v. IsUpdated e id n found ex v.ex × IsShown lib engine no_index e v)
          (buffer_level lib engine no_index e before s o)
  unfolding buffer_level
  buffer_level-IsHandled e id n found before s ex none h = tt
  buffer_level-IsHandled e id n found before s ex (some (action, mid)) h =
      let row = level_row e action before (level_of lib engine no_index e mid) in
      let v : Live B = record { ex = record mid { last_update_time = e.event_time }; state = s } in
      let (book, time, credits) = buffer_row-book row v in
      (
        IsUpdated-Same e id n found ex mid (buffer_row row v).ex book credits h,
        buffer_level-IsShown lib engine no_index e before s (some (action, mid)) (buffer_row row v)
            refl,
      )

  with_exchange-IsHandled :
      (e : Event) (id n : ℕ) (before : Live B) (o : Option (Exchange B))
      → Whenever (λ ex. IsTaken e id n before.ex ex) o
      → Whenever
          (IsHandled EventType.trade e id n before)
          (with_exchange lib engine no_index before.state o)
  unfolding with_exchange
  with_exchange-IsHandled e id n before none h = tt
  with_exchange-IsHandled e id n before (some ex) h = (h, refl)

  Whenever-map :
      {A : Type 0} (P Q : A → Type 0)
      → ((a : A) → P a → Q a)
      → (o : Option A) → Whenever P o
      → Whenever Q o
  Whenever-map P Q f none h = tt
  Whenever-map P Q f (some a) h = f a h

  pub dispatch_type-IsHandled :
      (type : EventType) (e : Event) (id n : ℕ) (v : Live B)
      → Whenever (IsHandled type e id n v) (dispatch_type lib engine no_index type e id n v)
  unfolding dispatch_type level_of
  dispatch_type-IsHandled EventType.trade e id n v =
      with_exchange-IsHandled e id n v _ (replay_print-IsTaken e id n v.ex _ refl)
  dispatch_type-IsHandled EventType.level_update e id n v =
      let levels = lib.levels e.side v.ex.book.l3 in
      let found = level_at e.price levels in
      let same = get_level-level_at no_index e.price 0 levels in
      elim (Bool-cases (ltb e.event_time v.ex.last_update_time)) [
        | inl stale ↦ rw stale (inl (ground arith, refl, refl))
        | inr fresh ↦
            rw (fresh, same)
              (Whenever-map {A = Live B}
                (λ v'. IsUpdated e id n found v.ex v'.ex × IsShown lib engine no_index e v')
                (IsHandled EventType.level_update e id n v)
                (λ v' (u, shown). inr (ground arith, u, shown))
                (buffer_level lib engine no_index e (found, _) v.state
                  (update_level lib engine no_index e id n found v.ex))
                (buffer_level-IsHandled e id n found _ v.state v.ex _
                  (update_level-IsUpdated e id n found v.ex refl)))
      ]
