-- ===== src/MatchingEngine/Fill.antt =====
-- matching_engine/match_common.hpp: one fill, and the trade summaries of a match.
use slick_sim.Prelude.{
  ℕ, ◌+◌, ◌-◌, Bool, true, false, not, ◌&&◌, List, [], ◌∷◌, ◌++◌, Option, none, some, eqb, ltb,
  if◌then◌else◌,
}
use slick_sim.Common.Enums.{Side, opposite_side}
use slick_sim.Common.Order.{rests_remainder}
use slick_sim.Common.Messages.{Trade, TradeSummaryInfo}
use slick_sim.Utils.Execution.{execute_order as book_fill}
use slick_sim.OrderBook.L3.{OrderBookL3}
use slick_sim.OrderBook.State.{State, write, find_order}
use slick_sim.OrderBook.Operations.{delete_pooled, execute_order}
use slick_sim.MatchingEngine.Publish.{publish_order_execution, publish_order_cancel}
use slick_sim.MatchingEngine.SelfMatch.{MatchCall}

-- What one match carries through its fills. The last summary comes first.
pub record MatchContext (B : Type 0) : Type 0 where
  pub st : State B
  pub summaries : List TradeSummaryInfo
  pub last_fill_price : ℕ

-- A fill on the aggressor's leg, and one more resting leg.
unfoldable pub add_leg : (book_order_id trade_qty : ℕ) → List Trade → List Trade
add_leg book_order_id trade_qty [] = record { order_id = book_order_id; qty = trade_qty } ∷ []
add_leg book_order_id trade_qty (t ∷ ts) =
    record t { qty = t.qty + trade_qty }
    ∷ (ts ++ (record { order_id = book_order_id; qty = trade_qty } ∷ []))

unfoldable pub grow_summary :
    (book_order_id trade_qty phantom_qty : ℕ) → List TradeSummaryInfo → List TradeSummaryInfo
grow_summary book_order_id trade_qty phantom_qty [] = []
grow_summary book_order_id trade_qty phantom_qty (s ∷ ss) =
    record s {
      num_orders = s.num_orders + 1;
      qty = s.qty + trade_qty;
      phantom_qty = s.phantom_qty + phantom_qty;
      trades = add_leg book_order_id trade_qty s.trades;
    }
    ∷ ss

module _ {B : Type 0} where
  -- recordTrade
  unfoldable pub record_trade :
      Side
      → (event_time aggressor_id book_order_id price trade_qty phantom_qty : ℕ) → MatchContext B
      → MatchContext B
  record_trade side event_time aggressor_id book_order_id price trade_qty phantom_qty c =
      if not (eqb c.last_fill_price price)
      then record c {
        st = record (c.st) { next_trade_id = c.st.next_trade_id + 1 };
        summaries =
            record {
              timestamp = event_time;
              trade_id = c.st.next_trade_id;
              aggressor_side = opposite_side side;
              price = price;
              qty = trade_qty;
              phantom_qty = phantom_qty;
              num_orders = 2;
              trades =
                  record { order_id = aggressor_id; qty = trade_qty }
                  ∷ record { order_id = book_order_id; qty = trade_qty }
                  ∷ [];
            }
            ∷ c.summaries;
        last_fill_price = price;
      }
      else record c { summaries = grow_summary book_order_id trade_qty phantom_qty c.summaries }

  -- cancelUnrestableRemainder
  unfoldable pub cancel_unrestable_remainder :
      (order remaining request_time : ℕ) → State B → State B
  cancel_unrestable_remainder order remaining request_time st =
      if ltb 0 remaining && not (rests_remainder (st.pool order))
      then publish_order_cancel order request_time st
      else st

  -- The owner of a resting order hears of its fill, and a filled order goes back to the pool.
  unfoldable pub report_resting : Option ℕ → State B → State B
  report_resting none st = st
  report_resting (some resting) st =
      let told = publish_order_execution resting false st in
      if eqb (told.pool resting).leaves_quantity 0 then delete_pooled resting told else told

-- The part of a fill that mirrored liquidity gave.
abbrev pub phantom : Option ℕ → ℕ → ℕ
phantom none trade_qty = trade_qty
phantom (some resting) trade_qty = 0

module _ {B : Type 0} (lib : OrderBookL3 B) where
  -- fillResting. `remaining` is the aggressor's quantity after this fill.
  unfoldable pub fill_resting :
      MatchCall
      → (book_order_id : ℕ) → Option ℕ
      → (price trade_qty remaining : ℕ) → MatchContext B
      → MatchContext B × Bool
  fill_resting m book_order_id full_book_order price trade_qty remaining c =
      let filled = write m.order (book_fill price trade_qty m.event_time) c.st in
      let told = publish_order_execution m.order true filled in
      let (done, accepted) =
        execute_order lib book_order_id trade_qty m.event_time m.seq_num (eqb remaining 0) told in
      if not accepted then (record c { st = done }, false) else (
        record_trade m.side m.event_time m.order book_order_id price trade_qty
            (phantom full_book_order trade_qty)
            (record c { st = report_resting full_book_order done }),
        true,
      )

  -- fillRestingFromFeed. The quantity is given back when the book declines.
  unfoldable pub fill_resting_from_feed :
      Side
      → (event_time seq_num aggressor_id book_order_id price trade_qty qty : ℕ) → MatchContext B
      → MatchContext B × ℕ × Bool
  fill_resting_from_feed side event_time seq_num aggressor_id book_order_id price trade_qty qty c =
      let our_order = find_order book_order_id c.st in
      let left = qty - trade_qty in
      let (done, accepted) =
        execute_order lib book_order_id trade_qty event_time seq_num (eqb left 0) c.st in
      if not accepted then (record c { st = done }, left + trade_qty, false) else (
        record_trade side event_time aggressor_id book_order_id price trade_qty
            (phantom our_order trade_qty) (record c { st = report_resting our_order done }),
        left,
        true,
      )
