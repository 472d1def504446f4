-- ===== src/MatchingEngine/SelfMatch.antt =====
-- matching_engine/match_common.hpp: self-match prevention and the two scans of the book that come
-- before a match. `order` is a pointer, so an order's id.
use slick_sim.Prelude.{
  ℕ, ◌-◌, Bool, true, false, not, ◌&&◌, List, [], ◌∷◌, Option, none, some, eqb, leb, if◌then◌else◌,
  min, ◌⊎◌, inl, inr,
}
use slick_sim.Common.Enums.{Side, SelfMatchPreventionMode, smp_is}
use slick_sim.Common.Order.{null_price}
use slick_sim.Utils.Price.{is_price_better_or_equal}
use slick_sim.OrderBook.L3.{RestingOrder, PriceLevelL3, OrderBookL3}
use slick_sim.OrderBook.State.{State, find_order, free_order}
use slick_sim.OrderBook.Operations.{delete_order}
use slick_sim.MatchingEngine.Publish.{publish_order_cancel}

pub data Reach : Type 0 where
  queue level : Reach

-- The arguments of one `match` of a client order. `side` is the template's SIDE, the resting side.
pub record MatchCall : Type 0 where
  pub side : Side
  pub order : ℕ
  pub order_price : ℕ
  pub order_qty : ℕ
  pub request_time : ℕ
  pub event_time : ℕ
  pub seq_num : ℕ
  pub smp_mode : SelfMatchPreventionMode

-- A level that a limit does not reach.
unfoldable pub beyond : Side → (order_price level_price : ℕ) → Bool
beyond side order_price level_price =
    not (eqb order_price null_price) && not (is_price_better_or_equal side level_price order_price)

abbrev pub same_client : Option ℕ → Option ℕ → Bool
same_client none b = false
same_client (some a) none = false
same_client (some a) (some b) = eqb a b

-- Where the scan of a level's orders ends: at an own order, at `return false`, or with what the
-- level leaves to look for.
pub data Scan : Type 0 where
  self_match : Scan
  exhausted : Scan
  remains : ℕ → Scan

module _ {B : Type 0} where
  -- isSelfMatch. A null pointer is `none`.
  unfoldable pub is_self_match : State B → ℕ → Option ℕ → Bool
  is_self_match st incoming none = false
  is_self_match st incoming (some book_order) =
      same_client (st.pool incoming).client_id (st.pool book_order).client_id

  unfoldable pub scan_queue : State B → ℕ → (remaining : ℕ) → List RestingOrder → Scan
  scan_queue st order remaining [] = remains remaining
  scan_queue st order remaining (o ∷ os) =
      let rest = scan_queue st order (remaining - min o.quantity remaining) os in
      if leb remaining 0
      then exhausted
      else if is_self_match st order (find_order o.order_id st)
      then self_match
      else rest

  unfoldable pub scan_level : State B → ℕ → (remaining total : ℕ) → List RestingOrder → Scan
  scan_level st order remaining total [] = remains (remaining - min total remaining)
  scan_level st order remaining total (o ∷ os) =
      let rest = scan_level st order remaining total os in
      if is_self_match st order (find_order o.order_id st) then self_match else rest

  unfoldable pub scan : Reach → State B → ℕ → (remaining : ℕ) → PriceLevelL3 → Scan
  scan Reach.queue st order remaining l = scan_queue st order remaining l.orders
  scan Reach.level st order remaining l = scan_level st order remaining l.total_quantity l.orders

  -- wouldSelfMatch
  unfoldable pub would_self_match :
      Reach → Side → State B → ℕ → (order_price remaining : ℕ) → List PriceLevelL3 → Bool
  would_self_match reach side st order order_price remaining [] = false
  would_self_match reach side st order order_price remaining (l ∷ ls) =
      let next = λ (n : ℕ). would_self_match reach side st order order_price n ls in
      if leb remaining 0
      then false
      else if beyond side order_price l.price
      then false
      else (elim (scan reach st order remaining l) [
        | self_match ↦ true
        | exhausted ↦ false
        | remains n ↦ next n
      ])

  -- The inner loop of canFillCompletely: the answer where it returns, or the quantity to find.
  unfoldable pub count_level :
      State B → SelfMatchPreventionMode → ℕ → (remaining : ℕ) → List RestingOrder → ℕ ⊎ Bool
  count_level st smp order remaining [] = inl remaining
  count_level st smp order remaining (o ∷ os) =
      let skip = count_level st smp order remaining os in
      let left = remaining - min o.quantity remaining in
      let rest = count_level st smp order left os in
      if not (smp_is smp SelfMatchPreventionMode.none)
        && is_self_match st order (find_order o.order_id st)
      then (if smp_is smp SelfMatchPreventionMode.cancel_newest then inr false else skip)
      else if eqb left 0
      then inr true
      else rest

  -- canFillCompletely
  unfoldable pub can_fill_completely :
      Side
      → State B
      → SelfMatchPreventionMode
      → ℕ
      → (order_price remaining : ℕ) → List PriceLevelL3
      → Bool
  can_fill_completely side st smp order order_price remaining [] = eqb remaining 0
  can_fill_completely side st smp order order_price remaining (l ∷ ls) =
      let next = λ (n : ℕ). can_fill_completely side st smp order order_price n ls in
      if beyond side order_price l.price
      then eqb remaining 0
      else (elim (count_level st smp order remaining l.orders) [
        | inl n ↦ next n
        | inr answer ↦ answer
      ])

module _ {B : Type 0} (lib : OrderBookL3 B) where
  -- handleSelfMatch: the resting order is removed, its owner is told, and it goes back to the pool.
  -- `false` is a rejection.
  unfoldable pub handle_by :
      SelfMatchPreventionMode → MatchCall → (book_order : ℕ) → State B → State B × Bool
  handle_by SelfMatchPreventionMode.none m book_order st = (st, true)
  handle_by SelfMatchPreventionMode.cancel_resting m book_order st =
      let gone = delete_order lib book_order m.event_time m.seq_num false st in
      (free_order book_order (publish_order_cancel book_order m.request_time gone), true)
  handle_by SelfMatchPreventionMode.cancel_newest m book_order st = (st, false)

  unfoldable pub handle_self_match : MatchCall → (book_order : ℕ) → State B → State B × Bool
  handle_self_match m book_order st = handle_by m.smp_mode m book_order st
