-- ===== src/MatchingEngine/Fifo/Ready.antt =====
-- match_common.hpp: what prepareOrder leaves as it was, and what an order that it lets through has.
use slick_sim.Prelude.{
  ℕ, ◌+◌, ◌-◌, ◌≤◌, ◌≡◌, sym, ap, ◌∙◌, Bool, true, false, List, [], ◌∷◌, none, arith, eqb, eqb_refl,
  if◌then◌else◌, min, Bool-cases, ◌⊎◌, inl, inr,
}
use slick_sim.Common.Enums.{
  Side, OrderStatus, TimeInForce, SelfMatchPreventionMode, status_is, tif_is, smp_is, smp_mode_code,
  time_in_force_code,
}
use slick_sim.Common.Order.{Order}
use slick_sim.OrderBook.L3.{RestingOrder, PriceLevelL3, total_of}
use slick_sim.OrderBook.State.{State, write, publish}
use slick_sim.MatchingEngine.Publish.{publish_order_ack, publish_order_modify, publish_order_cancel}
use slick_sim.MatchingEngine.SelfMatch.{Reach, MatchCall, beyond, count_level, can_fill_completely}
use slick_sim.MatchingEngine.Prepare.{replaced, apply_replace, check_leaves, prepare_order}
use slick_sim.MatchingEngine.Limit.{reachable}

not_newest :
    (mode : SelfMatchPreventionMode)
    → mode ≡ SelfMatchPreventionMode.none
    → smp_is mode SelfMatchPreventionMode.cancel_newest ≡ false
unfolding smp_is smp_mode_code
not_newest mode e = ap (λ x. smp_is x SelfMatchPreventionMode.cancel_newest) e

kills :
    (tif : TimeInForce)
    → tif ≡ TimeInForce.fill_or_kill
    → tif_is tif TimeInForce.fill_or_kill ≡ true
unfolding tif_is time_in_force_code
kills tif e = ap (λ x. tif_is x TimeInForce.fill_or_kill) e

-- What a level can give towards `n`.
abbrev Counted : (n total : ℕ) → ℕ ⊎ Bool → Type 0
Counted n total (inl k) = n ≤ total + k
Counted n total (inr b) = b ≡ true → n ≤ total

module _ {B : Type 0} where
  count_level-Counted :
      (st : State B) (id n : ℕ) (os : List RestingOrder)
      → Counted n (total_of os) (count_level st SelfMatchPreventionMode.none id n os)
  unfolding count_level smp_is smp_mode_code
  count_level-Counted st id n [] = omega arith
  count_level-Counted st id n (o ∷ os) =
      let left = n - min o.quantity n in
      elim (Bool-cases (eqb left 0)) [
        | inl e ↦ rw e (λ _. ground arith)
        | inr e ↦ rw e (
            grow (count_level st SelfMatchPreventionMode.none id left os)
              (count_level-Counted st id left os))
      ]
    where
      grow :
          (r : ℕ ⊎ Bool)
          → Counted (n - min o.quantity n) (total_of os) r
          → Counted n (o.quantity + total_of os) r
      grow (inl k) c = omega arith
      grow (inr b) c = λ e. (let c' = c e in omega arith)

  pub can_fill_completely-reachable :
      (side : Side) (st : State B) (id price n : ℕ) (ls : List PriceLevelL3)
      → can_fill_completely side st SelfMatchPreventionMode.none id price n ls ≡ true
      → n ≤ reachable side price ls
  unfolding can_fill_completely
  can_fill_completely-reachable side st id price n [] h = ground arith
  can_fill_completely-reachable side st id price n (l ∷ ls) h =
      elim (Bool-cases (beyond side price l.price)) [
        | inl e ↦ (let h' = rw e at h in rw e (ground arith))
        | inr e ↦
            (let h' = rw e at h in
              rw e (
                at (count_level st SelfMatchPreventionMode.none id n l.orders) h'
                  (count_level-Counted st id n l.orders)
                  (λ k. can_fill_completely-reachable side st id price k ls)))
      ]
    where
      at :
          (r : ℕ ⊎ Bool)
          → (elim r [
            | inl k ↦ can_fill_completely side st SelfMatchPreventionMode.none id price k ls
            | inr answer ↦ answer
          ])
            ≡ true
          → Counted n (total_of l.orders) r
          → ((k : ℕ)
              → can_fill_completely side st SelfMatchPreventionMode.none id price k ls ≡ true
              → k ≤ reachable side price ls)
          → n ≤ total_of l.orders + reachable side price ls
      at (inl k) e c next = let more = next k e in omega arith
      at (inr b) e c next = let c' = c e in omega arith

  apply_replace-l3 : (m : MatchCall) (st : State B) → (apply_replace m st).l3 ≡ st.l3
  unfolding apply_replace publish_order_modify publish write
  apply_replace-l3 m st = ground arith

  check_leaves-l3 : (m : MatchCall) (st : State B) → (check_leaves m st).0.l3 ≡ st.l3
  unfolding check_leaves publish_order_cancel publish
  check_leaves-l3 m st = ground arith

  pub prepare_order-l3 :
      (reach : Reach) (m : MatchCall) (ls : List PriceLevelL3) (st : State B)
      → (prepare_order reach m ls st).0.l3 ≡ st.l3
  unfolding prepare_order publish_order_ack publish_order_cancel publish
  prepare_order-l3 reach m ls st =
      let o = st.pool m.order in
      let acked =
        if status_is o.status OrderStatus.pending_new
        then publish_order_ack m.order m.request_time st
        else st in
      let same : acked.l3 ≡ st.l3 = ground arith in
      let last = check_leaves-l3 m (apply_replace m acked) ∙ apply_replace-l3 m acked ∙ same in
      ground (arith, last)

  apply_replace-leaves :
      (m : MatchCall) (st : State B)
      → (st.pool m.order).leaves_quantity ≤ m.order_qty
      → ((apply_replace m st).pool m.order).leaves_quantity ≤ m.order_qty
  unfolding apply_replace publish_order_modify publish write replaced
  apply_replace-leaves m st h = rw (eqb_refl m.order) (ground arith)

  check_leaves-pool : (m : MatchCall) (st : State B) → (check_leaves m st).0.pool ≡ st.pool
  unfolding check_leaves publish_order_cancel publish
  check_leaves-pool m st = ground arith

  acked-pool :
      (m : MatchCall) (st : State B) (b : Bool)
      → (if b then publish_order_ack m.order m.request_time st else st).pool ≡ st.pool
  unfolding publish_order_ack publish
  acked-pool m st b = ground arith

  -- A fill-or-kill order that is let through with SMP off has no more to fill than is in reach.
  pub prepare_order-reachable :
      (m : MatchCall) (ls : List PriceLevelL3) (st : State B)
      → m.smp_mode ≡ SelfMatchPreventionMode.none
      → (st.pool m.order).time_in_force ≡ TimeInForce.fill_or_kill
      → (st.pool m.order).leaves_quantity ≤ m.order_qty
      → (prepare_order Reach.queue m ls st).1 ≡ none
      → ((prepare_order Reach.queue m ls st).0.pool m.order).leaves_quantity
        ≤ reachable m.side m.order_price ls
  unfolding prepare_order
  prepare_order-reachable m ls st off fok h ready =
      let o = st.pool m.order in
      let acked =
        if status_is o.status OrderStatus.pending_new
        then publish_order_ack m.order m.request_time st
        else st in
      let fill = λ (mode : SelfMatchPreventionMode).
        can_fill_completely m.side acked mode m.order m.order_price m.order_qty ls in
      let newest_off = not_newest m.smp_mode off in
      let kill = kills o.time_in_force fok in
      elim (Bool-cases (fill m.smp_mode)) [
        | inl e ↦
            (let near =
                can_fill_completely-reachable m.side acked m.order m.order_price m.order_qty ls
                  (sym (ap fill off) ∙ e) in
              rw (newest_off, kill, e) (at_most near))
        | inr e ↦ (let ready' = rw (newest_off, kill, e) at ready in ground arith)
      ]
    where
      at_most :
          {n : ℕ}
          → m.order_qty ≤ n
          → ((check_leaves m (
                apply_replace m (
                  if status_is (st.pool m.order).status OrderStatus.pending_new
                  then publish_order_ack m.order m.request_time st
                  else st))).0.pool
              m.order).leaves_quantity
            ≤ n
      at_most near =
          let b = status_is (st.pool m.order).status OrderStatus.pending_new in
          let acked = if b then publish_order_ack m.order m.request_time st else st in
          let leaves = λ (pool : ℕ → Order). (pool m.order).leaves_quantity in
          let first = ap leaves (acked-pool m st b) in
          let replaced = apply_replace-leaves m acked (omega arith) in
          let done = ap leaves (check_leaves-pool m (apply_replace m acked)) in omega arith
