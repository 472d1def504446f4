-- ===== src/OrderBook/Observers.antt =====
-- What the observers of a book (Symbol::onOrderUpdate, onPriceLevelUpdate and the book's own) never
-- change.
use slick_sim.Prelude.{ℕ, ◌≡◌, refl, ◌∙◌, List, [], ◌∷◌, arith}
use slick_sim.OrderBook.L3.{Event, order_update, level_update}
use slick_sim.OrderBook.State.{State, write, book_order_update, notify, notify_all}

module _ {B : Type 0} where
  -- The observers of the book keep the pool's free list, the responses and the registered orders.
  abbrev pub Same : State B → State B → Type 0
  Same st st' = (st'.freed ≡ st.freed) × (st'.responses ≡ st.responses) × (st'.orders ≡ st.orders)

  notify-Same : (e : Event) (st : State B) → Same st (notify e st)
  unfolding notify book_order_update write
  notify-Same (order_update u) st = (ground arith, ground arith, ground arith)
  notify-Same (level_update u) st = (refl, refl, refl)

  pub notify_all-Same : (es : List Event) (st : State B) → Same st (notify_all es st)
  unfolding notify_all
  notify_all-Same [] st = (refl, refl, refl)
  notify_all-Same (e ∷ es) st =
      let (f, r, o) = notify_all-Same es (notify e st) in
      let (f', r', o') = notify-Same e st in (f ∙ f', r ∙ r', o ∙ o')

  -- They keep the names under which orders are found, and whose order each one is.
  abbrev pub SameNames : State B → State B → Type 0
  SameNames st st' =
      (st'.by_client_order_id ≡ st.by_client_order_id)
      × (st'.by_order_id ≡ st.by_order_id)
      × ((j : ℕ) → (st'.pool j).identity ≡ (st.pool j).identity)
      × ((j : ℕ) → (st'.pool j).request_tag ≡ (st.pool j).request_tag)
      × ((j : ℕ) → (st'.pool j).id ≡ (st.pool j).id)

  notify-SameNames : (e : Event) (st : State B) → SameNames st (notify e st)
  unfolding notify book_order_update write
  notify-SameNames (order_update u) st =
      (ground arith, ground arith, λ j. ground arith, λ j. ground arith, λ j. ground arith)
  notify-SameNames (level_update u) st = (refl, refl, λ j. refl, λ j. refl, λ j. refl)

  pub notify_all-SameNames : (es : List Event) (st : State B) → SameNames st (notify_all es st)
  unfolding notify_all
  notify_all-SameNames [] st = (refl, refl, λ j. refl, λ j. refl, λ j. refl)
  notify_all-SameNames (e ∷ es) st =
      let (c, o, i, t, k) = notify_all-SameNames es (notify e st) in
      let (c', o', i', t', k') = notify-SameNames e st in
      (c ∙ c', o ∙ o', λ j. i j ∙ i' j, λ j. t j ∙ t' j, λ j. k j ∙ k' j)
