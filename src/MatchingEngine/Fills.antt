-- ===== src/MatchingEngine/Fills.antt =====
-- One fill of either kind, against a book that keeps its laws.
use slick_sim.Prelude.{
  ℕ, ◌+◌, ◌-◌, ◌<◌, ◌≡◌, ◌≢◌, refl, ap, ◌∙◌, Bool, true, false, Option, none, some, arith, eqb,
}
use slick_sim.Common.Enums.{Side}
use slick_sim.Common.Order.{null_price}
use slick_sim.Utils.Execution.{execute_order as book_fill}
use slick_sim.OrderBook.L3.{OrderBookL3, IsOrderBookL3, IsCurrent, RestsOn, cut_levels}
use slick_sim.OrderBook.State.{State, write, find_order, publish}
use slick_sim.OrderBook.Operations.{execute_order}
use slick_sim.OrderBook.Effects.{write_self, delete_pooled_keeps, execute_order_lem}
use slick_sim.MatchingEngine.Publish.{publish_order_execution}
use slick_sim.MatchingEngine.SelfMatch.{MatchCall}
use slick_sim.MatchingEngine.Fill.{
  MatchContext, report_resting, record_trade, phantom, fill_resting, fill_resting_from_feed,
}
use slick_sim.MatchingEngine.Tape.{traded, IsTape, record_trade_lem, record_trade_keeps, phantom-le}

module _ {B : Type 0} where
  publish_keeps :
      (id j : ℕ) (aggressor : Bool) (st : State B)
      → ((publish_order_execution id aggressor st).pool j ≡ st.pool j)
        × ((publish_order_execution id aggressor st).l3 ≡ st.l3)
  unfolding publish_order_execution publish
  publish_keeps id j aggressor st = (refl, refl)

  report_resting_keeps :
      (o : Option ℕ) (j : ℕ) (st : State B)
      → ((report_resting o st).pool j ≡ st.pool j) × ((report_resting o st).l3 ≡ st.l3)
  unfolding report_resting
  report_resting_keeps none j st = (refl, refl)
  report_resting_keeps (some id) j st =
      let told = publish_order_execution id false st in
      let p = publish_keeps id j false st in
      let d = delete_pooled_keeps id j told in ground (arith, p, d)

module _ {B : Type 0} (lib : OrderBookL3 B) (laws : IsOrderBookL3 lib) where
  open laws use {IsBook}

  -- What a fill of a resting order with `e` leaves of the book and of the tape.
  pub record Filled (P : ℕ → Type 0) (seq bid e : ℕ) (c d : MatchContext B) : Type 0 where
    pub book : IsBook d.st.l3
    pub current : IsCurrent seq (lib.last_seq_num d.st.l3)
    pub levels : (t : Side) → lib.levels t d.st.l3 ≡ cut_levels bid e (lib.levels t c.st.l3)
    pub tape : IsTape P d
    pub more : traded d.summaries ≡ traded c.summaries + e

  -- The end of a fill: the resting side is told and the trade recorded, after the book is `done`.
  recorded_Filled :
      (P : ℕ → Type 0) (s t : Side) (o : Option ℕ) (ts seq a bid e price : ℕ) (c : MatchContext B)
      (done : State B)
      → IsBook done.l3
      → IsCurrent seq (lib.last_seq_num done.l3)
      → ((t : Side) → lib.levels t done.l3 ≡ cut_levels bid e (lib.levels t c.st.l3))
      → price ≢ null_price
      → P price
      → IsTape P c
      → Filled P seq bid e c
          (record_trade s ts a bid price e (phantom o e) (record c { st = report_resting o done }))
  recorded_Filled P s t o ts seq a bid e price c done b cur lv ne p tape =
      let told : MatchContext B = record c { st = report_resting o done } in
      let after = record_trade s ts a bid price e (phantom o e) told in
      let same : after.st.l3 ≡ done.l3 =
        (record_trade_keeps s ts a bid price e (phantom o e) 0 told).1
        ∙ (report_resting_keeps o 0 done).1 in
      let (tape', more') =
        record_trade_lem P s ts a bid price e (phantom o e) told ne (phantom-le o e) p
          (record { summaries = tape.summaries; last = tape.last; priced = tape.priced }) in
      record {
        book = rw same b;
        current = rw same cur;
        levels = λ u. rw same (lv u);
        tape = tape';
        more = more';
      }

  pub fill_resting_from_feed_lem :
      (P : ℕ → Type 0) (s t : Side) (ts seq a bid price e left qty : ℕ) (c : MatchContext B)
      → IsBook c.st.l3
      → IsCurrent seq (lib.last_seq_num c.st.l3)
      → 0 < e
      → RestsOn bid (e + left) (lib.levels t c.st.l3)
      → price ≢ null_price
      → P price
      → IsTape P c
      → let r = fill_resting_from_feed lib s ts seq a bid price e qty c in
        Filled P seq bid e c r.0 × (r.1 ≡ qty - e) × (r.2 ≡ true)
  unfolding fill_resting_from_feed
  fill_resting_from_feed_lem P s t ts seq a bid price e left qty c b cur pos rests ne p tape =
      let x =
        execute_order_lem lib laws t bid e left ts seq (eqb (qty - e) 0) c.st b cur pos rests in
      let done = execute_order lib bid e ts seq (eqb (qty - e) 0) c.st in
      rw x.0 (
        recorded_Filled P s t (find_order bid c.st) ts seq a bid e price c done.0 x.1 x.2 x.3 ne p
            tape,
        refl,
        refl,
      )

  pub fill_resting_lem :
      (P : ℕ → Type 0) (m : MatchCall) (t : Side) (o : Option ℕ) (bid price e left rem : ℕ)
      (c : MatchContext B)
      → IsBook c.st.l3
      → IsCurrent m.seq_num (lib.last_seq_num c.st.l3)
      → 0 < e
      → RestsOn bid (e + left) (lib.levels t c.st.l3)
      → bid ≢ m.order
      → price ≢ null_price
      → P price
      → IsTape P c
      → let r = fill_resting lib m bid o price e rem c in
        Filled P m.seq_num bid e c r.0
        × (r.1 ≡ true)
        × (r.0.st.pool m.order ≡ book_fill price e m.event_time (c.st.pool m.order))
  unfolding fill_resting
  fill_resting_lem P m t o bid price e left rem c b cur pos rests other ne p tape =
      let filled = write m.order (book_fill price e m.event_time) c.st in
      let told = publish_order_execution m.order true filled in
      let same : told.l3 ≡ c.st.l3 = unfold publish_order_execution publish write in refl in
      let x =
        execute_order_lem lib laws t bid e left m.event_time m.seq_num (eqb rem 0) told (rw same b)
          (rw same cur) pos (rw same rests) in
      let done = execute_order lib bid e m.event_time m.seq_num (eqb rem 0) told in
      let resting : MatchContext B = record c { st = report_resting o done.0 } in
      let mine =
        (record_trade_keeps m.side m.event_time m.order bid price e (phantom o e) m.order resting).0
        ∙ (report_resting_keeps o m.order done.0).0
        ∙ x.4 m.order other
        ∙ (publish_keeps m.order m.order true filled).0
        ∙ write_self m.order (book_fill price e m.event_time) c.st in
      rw x.0 (
        recorded_Filled P m.side t o m.event_time m.seq_num m.order bid e price c done.0 x.1 x.2
            (λ u. x.3 u ∙ ap (λ y. cut_levels bid e (lib.levels u y)) same) ne p tape,
        refl,
        mine,
      )
