-- ===== src/MatchingEngine/Fifo/Match.antt =====
-- matchOrder of the FIFO engine from its call to its answer: prepareOrder, the loop and the
-- cancellation of what cannot rest.
use slick_sim.Prelude.{
  ℕ, ◌+◌, ◌≤◌, ◌<◌, ◌≡◌, ◌≢◌, refl, sym, ◌∙◌, ap, [], Option, none, some, arith, ◌⊎◌, inl, inr,
}
use slick_sim.Common.Enums.{SelfMatchPreventionMode, TimeInForce, smp_mode_code}
use slick_sim.Common.Reasons.{OrdRejectReason}
use slick_sim.Common.Order.{Order, null_price}
use slick_sim.OrderBook.L3.{OrderBookL3, IsOrderBookL3, IsCurrent}
use slick_sim.OrderBook.State.{State, publish}
use slick_sim.OrderBook.Levels.{count_orders, depth, Priced, IsAbsent}
use slick_sim.MatchingEngine.Publish.{publish_order_cancel}
use slick_sim.MatchingEngine.SelfMatch.{Reach, MatchCall}
use slick_sim.MatchingEngine.Prepare.{prepare_order}
use slick_sim.MatchingEngine.Fill.{cancel_unrestable_remainder}
use slick_sim.MatchingEngine.Limit.{reachable, reachable-zero}
use slick_sim.MatchingEngine.Fifo.{
  Progress, Ending, MatchResult, fifo_go, fifo_match, close_by, close, close_if,
}
use slick_sim.MatchingEngine.Fifo.Client.{ClientEnd}
use slick_sim.MatchingEngine.Fifo.Loop.{fifo_loop}
use slick_sim.MatchingEngine.Fifo.Ready.{prepare_order-l3, prepare_order-reachable}

not_newest :
    (mode : SelfMatchPreventionMode)
    → mode ≡ SelfMatchPreventionMode.none
    → mode ≡ SelfMatchPreventionMode.cancel_newest
    → ⊥
unfolding smp_mode_code
not_newest mode off on = let e = ap smp_mode_code (sym off ∙ on) in omega arith

module _ {B : Type 0} where
  close-pool :
      (m : MatchCall) (p : Progress B) → (close_by OrdRejectReason.none m p).st.pool ≡ p.ctx.st.pool
  unfolding close_by cancel_unrestable_remainder publish_order_cancel publish
  close-pool m p = ground arith

module _ {B : Type 0} (lib : OrderBookL3 B) (laws : IsOrderBookL3 lib) (m : MatchCall) where
  open laws use {IsBook}

  -- What a match answers after prepareOrder, for a side of depth `deep` with `within` in reach.
  abbrev pub Answers : (deep within : ℕ) → State B → Option OrdRejectReason → MatchResult B → Type 0
  Answers deep within ready (some reason) r =
      r ≡ record { st = ready; reason = reason; summaries = [] }
  Answers deep within ready none r =
      let o = ready.pool m.order in
      (e : Ending B) × (r ≡ close m e)
      × ClientEnd lib laws m o.leaves_quantity o.cum_quantity deep within e

  go-Answers :
      (fuel : ℕ) (st ready : State B) (done : Option OrdRejectReason)
      → ready.l3 ≡ st.l3
      → IsBook st.l3
      → IsCurrent m.seq_num (lib.last_seq_num st.l3)
      → Priced (λ x. x ≢ null_price) (lib.levels m.side st.l3)
      → IsAbsent m.order (lib.levels m.side st.l3)
      → count_orders (lib.levels m.side st.l3) + 1 < fuel
      → (r : MatchResult B) × (fifo_go lib fuel m ready done ≡ some r)
        × Answers
            (depth (lib.levels m.side st.l3))
            (reachable m.side m.order_price (lib.levels m.side st.l3))
            ready
            done
            r
  unfolding fifo_go close_if
  go-Answers fuel st ready (some reason) same b c proper away enough = (_, refl, refl)
  go-Answers fuel st ready none same b c proper away enough =
      let (e, returns, ended) =
        fifo_loop lib laws m fuel ready (rw same b) (rw same c) (rw same proper) (rw same away)
          (rw same enough) in
      (close m e, ap (close_if m) returns, (e, refl, rw same at ended))

  -- On a book that keeps the laws of the L3 book and has no level at the null price, with a
  -- sequence number that is not behind, an order that does not rest on the opposite side itself, and
  -- more fuel than resting orders on that side plus one, the match of a client order returns. Where
  -- prepareOrder finishes the order the answer is its reason without a trade. Else the match ends as
  -- `ClientEnd` says: traded and left quantities add up to the order's, also in its books; the
  -- summaries balance and are priced within the limit; the side lost at least the traded depth; and
  -- a quantity is left only with nothing in reach, or by CANCEL_NEWEST.
  pub fifo_match-Answers :
      (fuel : ℕ) (st : State B)
      → IsBook st.l3
      → IsCurrent m.seq_num (lib.last_seq_num st.l3)
      → Priced (λ x. x ≢ null_price) (lib.levels m.side st.l3)
      → IsAbsent m.order (lib.levels m.side st.l3)
      → count_orders (lib.levels m.side st.l3) + 1 < fuel
      → let levels = lib.levels m.side st.l3 in
        let (ready, done) = prepare_order Reach.queue m levels st in
        (r : MatchResult B) × (fifo_match lib fuel m st ≡ some r)
        × Answers (depth levels) (reachable m.side m.order_price levels) ready done r
  unfolding fifo_match
  fifo_match-Answers fuel st b c proper away enough =
      let levels = lib.levels m.side st.l3 in
      let (ready, done) = prepare_order Reach.queue m levels st in
      go-Answers fuel st ready done (prepare_order-l3 Reach.queue m levels st) b c proper away
        enough

  filled_or_not :
      (within : ℕ) (ready : State B) (done : Option OrdRejectReason) (deep : ℕ) (r : MatchResult B)
      → m.smp_mode ≡ SelfMatchPreventionMode.none
      → (done ≡ none → (ready.pool m.order).leaves_quantity ≤ within)
      → Answers deep within ready done r
      → ((r.st.pool m.order).leaves_quantity ≡ 0) ⊎ (r.summaries ≡ [])
  unfolding close
  filled_or_not within ready (some reason) deep r off h a =
      inr (ap (λ (x : MatchResult B). x.summaries) a)
  filled_or_not within ready none deep r off h (e, same, ended) =
      let v = ended.inv in
      let limit = v.within_limit off in
      let whole = v.whole in
      let leaves = v.leaves in
      let enough = h refl in
      elim ended.done [
        | inl (quiet, ends) ↦
            (let left : e.last.qty ≡ 0 = elim ends [
              | inl z ↦ z
              | inr out ↦ (let nothing = reachable-zero m.side m.order_price _ out in omega arith)
            ] in
              let at = λ (x : MatchResult B). (x.st.pool m.order).leaves_quantity in
              inl (
                ap at same
                ∙ ap (λ reason. at (close_by reason m e.last)) quiet
                ∙ ap (λ (pool : ℕ → Order). (pool m.order).leaves_quantity) (close-pool m e.last)
                ∙ leaves
                ∙ left))
        | inr (rejected, newest) ↦ absurd (not_newest m.smp_mode off newest)
      ]

  -- A fill-or-kill order with SMP off, whose quantity to fill is not above the quantity that the
  -- call names, is filled completely or does not trade: the match returns with nothing left of it, or
  -- without a trade summary. The book and the fuel are as in `fifo_match-Answers`.
  pub fifo_match_fill_or_kill :
      (fuel : ℕ) (st : State B)
      → IsBook st.l3
      → IsCurrent m.seq_num (lib.last_seq_num st.l3)
      → Priced (λ x. x ≢ null_price) (lib.levels m.side st.l3)
      → IsAbsent m.order (lib.levels m.side st.l3)
      → count_orders (lib.levels m.side st.l3) + 1 < fuel
      → m.smp_mode ≡ SelfMatchPreventionMode.none
      → (st.pool m.order).time_in_force ≡ TimeInForce.fill_or_kill
      → (st.pool m.order).leaves_quantity ≤ m.order_qty
      → (r : MatchResult B) × (fifo_match lib fuel m st ≡ some r)
        × (((r.st.pool m.order).leaves_quantity ≡ 0) ⊎ (r.summaries ≡ []))
  fifo_match_fill_or_kill fuel st b c proper away enough off fok small =
      let levels = lib.levels m.side st.l3 in
      let (ready, done) = prepare_order Reach.queue m levels st in
      let (r, returns, a) = fifo_match-Answers fuel st b c proper away enough in
      (
        r,
        returns,
        filled_or_not (reachable m.side m.order_price levels) ready done (depth levels) r off
            (prepare_order-reachable m levels st off fok small) a,
      )
