-- ===== src/Exchange/Symbol/Place.antt =====
-- Symbol::addOrder: a matched order rests or goes back to the pool.
use slick_sim.Prelude.{
  ℕ, ◌+◌, ◌≡◌, ◌≢◌, ◌<◌, refl, ap, ◌∙◌, true, ◌&&◌, ◌∷◌, some, arith, ltb, Bool-cases, inl, inr,
  eqb_refl, ◌⊎◌, ltb→lt, lt→ltb,
}
use slick_sim.Common.Enums.{SelfMatchPreventionMode}
use slick_sim.Common.Order.{rests_remainder, null_price}
use slick_sim.OrderBook.L3.{OrderBookL3, IsOrderBookL3}
use slick_sim.OrderBook.Levels.{count_orders, Priced, IsAbsent}
use slick_sim.OrderBook.State.{State, contains, write, find_order, free_order}
use slick_sim.OrderBook.Operations.{settle, register, draw_priority, add_order as rest_order}
use slick_sim.OrderBook.Observers.{notify_all-Same}
use slick_sim.OrderBook.Effects.{notify_all-l3}
use slick_sim.MatchingEngine.Fifo.{MatchResult, resting_side, fifo_match}
use slick_sim.MatchingEngine.Fifo.Match.{fifo_match-Answers}
use slick_sim.Exchange.Symbol.{fifo_engine, is_none, new_call, place, place_if, add_order}

module _ {B : Type 0} (lib : OrderBookL3 B) where
  -- The L3 book took the order with what is left of it and the next priority, the order is found, and the
  -- free list is as the match left it.
  abbrev pub Rested : ℕ → State B → State B → Type 0
  Rested id before after =
      let o = before.pool id in
      (after.l3
        ≡ (lib.add_order id o.side o.price o.leaves_quantity o.created_time
            (before.next_priority + 1) 0 true before.l3).book)
      × (find_order id after ≡ some id)
      × (after.freed ≡ before.freed)

  -- The L3 book and the registered orders are as the match left them, and the order's slot is free.
  abbrev pub Freed : ℕ → State B → State B → Type 0
  Freed id before after =
      (after.l3 ≡ before.l3) × (after.orders ≡ before.orders) × (after.freed ≡ id ∷ before.freed)

  -- A matched order that was not rejected, has a quantity left and may rest.
  abbrev pub MayRest : ℕ → MatchResult B → Type 0
  MayRest id r =
      (is_none r.reason ≡ true)
      × (0 < (r.st.pool id).leaves_quantity)
      × (rests_remainder (r.st.pool id) ≡ true)

  registered :
      (id : ℕ) (st : State B) → contains id (register id (draw_priority id st)).orders ≡ true
  unfolding register draw_priority write
  registered id st = elim (Bool-cases (contains id st.orders)) [
    | inl e ↦ rw e e
    | inr e ↦ rw (e, eqb_refl id) refl
  ]

  rest_order-Rested :
      (id : ℕ) (st : State B) → Rested id st (rest_order lib id (st.pool id).created_time 0 true st)
  unfolding rest_order settle find_order register draw_priority write
  rest_order-Rested id st =
      let ts = (st.pool id).created_time in
      let placed = register id (draw_priority id st) in
      let o = placed.pool id in
      let out = lib.add_order id o.side o.price o.leaves_quantity ts o.priority 0 true placed.l3 in
      let (f, r, os) = notify_all-Same out.events (record placed { l3 = out.book }) in
      let has = ap (contains id) os ∙ registered id st in
      let written = notify_all-l3 out.events (record placed { l3 = out.book }) in
      (written ∙ rw (eqb_refl id) refl, rw has refl, f)

  -- A matched order that may rest does, and any other is freed.
  abbrev pub IsPlaced : ℕ → MatchResult B → MatchResult B → Type 0
  IsPlaced id r r' =
      (MayRest id r × Rested id r.st r'.st) ⊎ ((MayRest id r → ⊥) × Freed id r.st r'.st)

  place-IsPlaced : (id : ℕ) (r : MatchResult B) → IsPlaced id r (place lib id r)
  unfolding place free_order
  place-IsPlaced id r =
      let o = r.st.pool id in
      elim (Bool-cases (is_none r.reason && (ltb 0 o.leaves_quantity && rests_remainder o))) [
        | inl e ↦
            (let left : ltb 0 o.leaves_quantity ≡ true = ground arith in
              rw e (
                inl (
                  (ground arith, ltb→lt 0 o.leaves_quantity left, ground arith),
                  rest_order-Rested id r.st,
                )))
        | inr e ↦ rw e (
            inr (
              (λ (accepted, left, rests).
                  (let some_left = lt→ltb 0 o.leaves_quantity left in ground arith)),
              (refl, refl, refl),
            ))
      ]

module _ {B : Type 0} (lib : OrderBookL3 B) (laws : IsOrderBookL3 lib) where
  open laws use {IsBook}

  -- With the FIFO engine, a new order on a book that keeps the laws of the L3 book and has no level at
  -- the null price, whose id rests nowhere on the opposite side, and with more fuel than resting orders
  -- there plus one: addOrder returns. If the match did not reject the order and left a quantity that may
  -- rest, then the L3 book took it with that quantity and the next priority, it is found under its id, and
  -- no slot is freed. Otherwise the L3 book and the registered orders are as the match left them, and its
  -- slot, and no other, went back to the pool.
  pub add_order-IsPlaced :
      (fuel : ℕ) (smp_mode : SelfMatchPreventionMode) (id request_time : ℕ) (st : State B)
      → let levels = lib.levels (resting_side (st.pool id).side) st.l3 in
        IsBook st.l3
        → Priced (λ x. x ≢ null_price) levels
        → IsAbsent id levels
        → count_orders levels + 1 < fuel
        → (r r' : MatchResult B) × (fifo_match lib fuel (new_call smp_mode id request_time st) st
            ≡ some r)
          × (add_order lib (fifo_engine lib fuel) smp_mode id request_time st ≡ some r')
          × IsPlaced lib id r r'
  unfolding add_order place_if new_call
  add_order-IsPlaced fuel smp_mode id request_time st b proper away enough =
      let (r, returns, a) =
        fifo_match-Answers lib laws (new_call smp_mode id request_time st) fuel st b (inl refl)
          proper away enough in
      (r, place lib id r, returns, ap (place_if lib id) returns, place-IsPlaced lib id r)
