-- ===== src/MatchingEngine/Fifo/Own.antt =====
-- matchOrder of the FIFO engine: the turns that meet an order of the same client.
use slick_sim.Prelude.{
  ℕ, ◌+◌, ◌≤◌, ◌<◌, ◌≡◌, ◌≢◌, refl, sym, ◌∙◌, ap, true, false, List, ◌∷◌, some, arith, inl, inr,
}
use slick_sim.Prelude.Loop.{Keeps}
use slick_sim.Common.Enums.{SelfMatchPreventionMode, smp_is, smp_mode_code}
use slick_sim.Common.Order.{Order, null_price}
use slick_sim.OrderBook.L3.{
  RestingOrder, PriceLevelL3, OrderBookL3, IsOrderBookL3, RestsOn, drop_levels,
}
use slick_sim.OrderBook.State.{State, free_order, publish}
use slick_sim.OrderBook.Operations.{delete_order}
use slick_sim.OrderBook.Effects.{delete_order_lem}
use slick_sim.OrderBook.Levels.{
  depth, Priced, IsAbsent, drop_levels-Priced, drop_levels-IsAbsent, drop-Front,
}
use slick_sim.MatchingEngine.Publish.{publish_order_cancel}
use slick_sim.MatchingEngine.SelfMatch.{MatchCall, handle_by, handle_self_match}
use slick_sim.MatchingEngine.Tape.{traded}
use slick_sim.MatchingEngine.Fifo.{Progress, meet_own}
use slick_sim.MatchingEngine.Fifo.Client.{ClientInv, ClientEnd, AtFront, turns, other_than-Front}

module _ {B : Type 0} (lib : OrderBookL3 B) (laws : IsOrderBookL3 lib) (m : MatchCall) where
  open laws use {IsBook}

  cancel_keeps :
      (id t j : ℕ) (st : State B)
      → ((free_order id (publish_order_cancel id t st)).pool j ≡ st.pool j)
        × ((free_order id (publish_order_cancel id t st)).l3 ≡ st.l3)
  unfolding free_order publish_order_cancel publish
  cancel_keeps id t j st = (refl, refl)

  not_off : (smp_is SelfMatchPreventionMode.none SelfMatchPreventionMode.none) ≡ true
  unfolding smp_is smp_mode_code
  not_off = refl

  modes_differ : SelfMatchPreventionMode.cancel_resting ≡ SelfMatchPreventionMode.none → ⊥
  modes_differ e = cc

  -- Under CANCEL_RESTING the own order goes and the loop has one order less to meet.
  cancel_resting_keeps :
      (qty cum deep within : ℕ) (p : Progress B) (l : PriceLevelL3) (ls : List PriceLevelL3)
      (o : RestingOrder) (os : List RestingOrder)
      → m.smp_mode ≡ SelfMatchPreventionMode.cancel_resting
      → AtFront lib laws m qty cum deep within p l ls o os
      → let gone = delete_order lib o.order_id m.event_time m.seq_num false p.ctx.st in
        let after = free_order o.order_id (publish_order_cancel o.order_id m.request_time gone) in
        let next : Progress B = record p { ctx = record (p.ctx) { st = after } } in
        ClientInv lib laws m qty cum deep within next × (turns lib laws m next < turns lib laws m p)
  cancel_resting_keeps qty cum deep within p l ls o os mode a =
      let v = a.inv in
      let lv = a.levels in
      let prices : Priced (λ x. x ≢ null_price) (l ∷ ls) = rw lv at v.proper in
      let away : IsAbsent m.order (l ∷ ls) = rw lv at v.absent in
      let other = other_than-Front m.order l ls o os away a.front in
      let rests : RestsOn o.order_id o.quantity (l ∷ ls) = inl (rw (a.front) (inl (refl, refl))) in
      let x =
        delete_order_lem lib laws m.side o.order_id o.quantity m.event_time m.seq_num false p.ctx.st
          v.book v.current (rw lv rests) in
      let gone = delete_order lib o.order_id m.event_time m.seq_num false p.ctx.st in
      let k = cancel_keeps o.order_id m.request_time m.order gone in
      let lv' = ap (lib.levels m.side) k.1 ∙ x.2 m.side ∙ ap (drop_levels o.order_id) lv in
      let mine = k.0 ∙ x.3 m.order other in
      let (deeper, fewer) = drop-Front l ls o os a.front in
      let taken : depth (l ∷ ls) + traded p.ctx.summaries ≤ deep = rw lv at v.taken in
      (
        record {
          book = rw (k.1) x.0;
          current = rw (k.1) x.1;
          tape = record {
            summaries = v.tape.summaries;
            last = v.tape.last;
            priced = v.tape.priced;
          };
          proper = rw lv' (drop_levels-Priced (λ x. x ≢ null_price) o.order_id (l ∷ ls) prices);
          absent = rw lv' (drop_levels-IsAbsent m.order o.order_id (l ∷ ls) away);
          whole = v.whole;
          leaves = ap (λ (x : Order). x.leaves_quantity) mine ∙ v.leaves;
          filled = ap (λ (x : Order). x.cum_quantity) mine ∙ v.filled;
          taken = rw lv' (omega arith);
          within_limit = λ none_mode. absurd (modes_differ (sym mode ∙ none_mode));
        },
        rw (lv', lv) (omega arith),
      )

  keep_inv :
      (qty cum deep within : ℕ) (p : Progress B)
      → ClientInv lib laws m qty cum deep within p
      → ClientInv lib laws m qty cum deep within
          (record p { ctx = record (p.ctx) { st = p.ctx.st } })
  keep_inv qty cum deep within p v = v

  handled :
      (mode : SelfMatchPreventionMode) (id : ℕ) (st : State B)
      → m.smp_mode ≡ mode
      → handle_self_match lib m id st ≡ handle_by lib mode m id st
  unfolding handle_self_match
  handled mode id st e = ap (λ x. handle_by lib x m id st) e

  pub meet_own-Keeps :
      (qty cum deep within : ℕ) (p : Progress B) (l : PriceLevelL3) (ls : List PriceLevelL3)
      (o : RestingOrder) (os : List RestingOrder) (mode : SelfMatchPreventionMode)
      → m.smp_mode ≡ mode
      → smp_is mode SelfMatchPreventionMode.none ≡ false
      → AtFront lib laws m qty cum deep within p l ls o os
      → Keeps
          (ClientInv lib laws m qty cum deep within)
          (ClientEnd lib laws m qty cum deep within)
          (turns lib laws m)
          p
          (meet_own lib m (some o.order_id) p)
  unfolding meet_own handle_by
  meet_own-Keeps qty cum deep within p l ls o os SelfMatchPreventionMode.none e on a =
      absurd (let both : true ≡ false = sym not_off ∙ on in cc)
  meet_own-Keeps qty cum deep within p l ls o os SelfMatchPreventionMode.cancel_resting e on a =
      rw (handled SelfMatchPreventionMode.cancel_resting o.order_id p.ctx.st e)
        (cancel_resting_keeps qty cum deep within p l ls o os e a)
  meet_own-Keeps qty cum deep within p l ls o os SelfMatchPreventionMode.cancel_newest e on a =
      rw (handled SelfMatchPreventionMode.cancel_newest o.order_id p.ctx.st e)
        (record { inv = keep_inv qty cum deep within p a.inv; done = inr (refl, e) })
