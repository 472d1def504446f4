-- ===== src/Venues/Coinbase/Dispatch/Level.antt =====
-- What a level update leaves in the buffer.
use slick_sim.Prelude.{
  ℕ, ◌≡◌, ◌⊎◌, refl, ap, sym, ◌∙◌, true, false, List, [], ◌∷◌, Option, none, some, eqb, ltb,
  Bool-cases, inl, inr,
}
use slick_sim.Common.MarketData.{MdUpdateAction, MdLevel}
use slick_sim.OrderBook.L3.{PriceLevelL3, OrderBookL3}
use slick_sim.Exchange.Symbol.{Engine}
use slick_sim.Exchange.Session.{Exchange, publish_frame}
use slick_sim.Venues.Coinbase.{EventType, Event, SymbolEventState}
use slick_sim.Venues.Coinbase.Dispatch.{
  Live, row_action, published_qty, published_orders, level_row, first_published, flush_rows,
  buffer_row, level_of, update_level, buffer_level, dispatch_type, dispatch_event,
}

module _ {B : Type 0} where
  flush_rows-book :
      (seq_num : ℕ) (rows : List MdLevel) (v : Live B)
      → ((flush_rows seq_num rows v).ex.book ≡ v.ex.book)
        × ((flush_rows seq_num rows v).ex.last_update_time ≡ v.ex.last_update_time)
        × ((flush_rows seq_num rows v).ex.credits ≡ v.ex.credits)
  unfolding flush_rows publish_frame
  flush_rows-book seq_num [] v = (refl, refl, refl)
  flush_rows-book seq_num (l ∷ ls) v =
      elim (Bool-cases (eqb seq_num v.state.last_published_level_seq_num)) [
        | inl e ↦ rw e (refl, refl, refl)
        | inr e ↦ rw e (refl, refl, refl)
      ]

  pub buffer_row-book :
      (row : MdLevel) (v : Live B)
      → ((buffer_row row v).ex.book ≡ v.ex.book)
        × ((buffer_row row v).ex.last_update_time ≡ v.ex.last_update_time)
        × ((buffer_row row v).ex.credits ≡ v.ex.credits)
  unfolding buffer_row first_published
  buffer_row-book row v = flush_rows-book row.seq_num v.state.level_update_buffer _

  -- A row that stands last in the buffer.
  abbrev IsLast : MdLevel → Live B → Type 0
  IsLast row v = (rows : List MdLevel) × (v.state.level_update_buffer ≡ row ∷ rows)

  buffer_row-IsLast : (row : MdLevel) (v : Live B) → IsLast row (buffer_row row v)
  unfolding buffer_row
  buffer_row-IsLast row v = (_, refl)

module _ {B : Type 0} (lib : OrderBookL3 B) (engine : Engine B) (no_index : ℕ) where
  -- The last row of the buffer is about the event's level, and shows it as the book holds it: with no
  -- level it has no quantity, and it is a deletion.
  pub record IsShown (e : Event) (v : Live B) : Type 0 where
    pub row : MdLevel
    pub buffered : (rows : List MdLevel) × (v.state.level_update_buffer ≡ row ∷ rows)
    pub price : row.price ≡ e.price
    pub seq_num : row.seq_num ≡ e.seq_num
    pub qty : row.qty ≡ published_qty (level_of lib engine no_index e v.ex).0
    pub num_orders : row.num_orders ≡ published_orders (level_of lib engine no_index e v.ex).0
    pub deleted :
        (level_of lib engine no_index e v.ex).0 ≡ none
        → row.update_action ≡ MdUpdateAction.action_delete
    pub updated : v.ex.last_update_time ≡ e.event_time

  pub buffer_level-IsShown :
      (e : Event) (before : Option PriceLevelL3 × ℕ) (s : SymbolEventState)
      (o : Option (MdUpdateAction × Exchange B)) (v' : Live B)
      → buffer_level lib engine no_index e before s o ≡ some v'
      → IsShown e v'
  unfolding buffer_level level_row row_action level_of
  buffer_level-IsShown e before s none v' h = cc
  buffer_level-IsShown e before s (some (action, ex)) v' h =
      let row = level_row e action before (level_of lib engine no_index e ex) in
      let v : Live B = record { ex = record ex { last_update_time = e.event_time }; state = s } in
      let is : buffer_row row v ≡ v' = cc in
      let (book, time, credits) = buffer_row-book row v in
      let same : level_of lib engine no_index e (buffer_row row v).ex
          ≡ level_of lib engine no_index e ex =
        ap (λ st. level_of lib engine no_index e (record ex { book = st })) book in
      rw (sym is) (record {
        row = row;
        buffered = buffer_row-IsLast row v;
        price = refl;
        seq_num = refl;
        qty = sym (ap (λ l. published_qty l.0) same);
        num_orders = sym (ap (λ l. published_orders l.0) same);
        deleted = λ gone. ap (row_action action) (sym (ap (λ l. l.0) same) ∙ gone);
        updated = time;
      })

  -- A level update that is older than the book changes nothing. Of any other the buffer shows the level
  -- as the book holds it then, and the book has the update's time.
  pub dispatch_event-IsShown :
      (e : Event) (id n : ℕ) (v v' : Live B)
      → e.type ≡ EventType.level_update
      → dispatch_event lib engine no_index e id n v ≡ some v'
      → ((ltb e.event_time v.ex.last_update_time ≡ true) × (v' ≡ v))
        ⊎ ((ltb e.event_time v.ex.last_update_time ≡ false) × IsShown e v')
  unfolding dispatch_event dispatch_type
  dispatch_event-IsShown e id n v v' is h =
      let at : dispatch_type lib engine no_index EventType.level_update e id n v ≡ some v' =
        sym (ap (λ t. dispatch_type lib engine no_index t e id n v) is) ∙ h in
      elim (Bool-cases (ltb e.event_time v.ex.last_update_time)) [
        | inl stale ↦ (let same : some v ≡ some v' = rw stale at at in inl (stale, cc))
        | inr fresh ↦ inr (
          fresh,
          buffer_level-IsShown e (level_of lib engine no_index e v.ex) v.state
              (update_level lib engine no_index e id n (level_of lib engine no_index e v.ex).0 v.ex)
              v' (rw fresh at at),
        )
      ]
