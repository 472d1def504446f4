-- ===== src/MatchingEngine/ProRata.antt =====
-- matching_engine/matching_config.cpp (ProRataConfig::validate) and `allocate` of
-- matching_engine/pro_rata_matching_engine.cpp, with utils/math.hpp. Quantities are not negative.
pub mod Exact
pub mod Passes
pub mod Totals
pub mod Match
use slick_sim.Prelude.{
  ℕ, ◌+◌, ◌-◌, ◌*◌, ◌/◌, ◌%◌, ◌^◌, min, Bool, true, false, List, [], ◌∷◌, Option, ltb, leb, eqb,
  if◌then◌else◌,
}
use slick_sim.OrderBook.L3.{RestingOrder}

pub record ProRataConfig : Type 0 where
  pub lot_size : ℕ
  pub min_allocation : ℕ
  pub fifo_percent : ℕ

-- The default configuration: one whole unit a lot, pure pro-rata.
abbrev pub default_config : ProRataConfig
default_config = record { lot_size = 100_000_000; min_allocation = 0; fifo_percent = 0 }

-- `false` is std::invalid_argument. `min_allocation < 0` cannot be met by a natural number.
unfoldable pub validate : ProRataConfig → Bool
validate c = if leb c.lot_size 0 then false else if ltb 100 c.fifo_percent then false else true

-- The product is held at 128 bits, and the quotient is cast to 64.
unfoldable pub mul_div_floor : ℕ → ℕ → ℕ → ℕ
mul_div_floor a b c = a * b % 2 ^ 128 / c % 2 ^ 64

-- One resting order's share of an aggressor. `order` is the simulator's own order, if it is one.
pub record Allocation : Type 0 where
  pub order_id : ℕ
  pub size : ℕ
  pub qty : ℕ
  pub order : Option ℕ

unfoldable pub floor_lot : ProRataConfig → ℕ → ℕ
floor_lot c qty = qty - qty % c.lot_size

-- The first loop: the level's orders with nothing allocated, and their total.
unfoldable pub open_allocations : (ℕ → Option ℕ) → List RestingOrder → List Allocation
open_allocations find [] = []
open_allocations find (o ∷ os) =
    record { order_id = o.order_id; size = o.quantity; qty = 0; order = find o.order_id }
    ∷ open_allocations find os

unfoldable pub total_size : List Allocation → ℕ
total_size [] = 0
total_size (a ∷ as') = a.size + total_size as'

unfoldable pub take_all : List Allocation → List Allocation
take_all [] = []
take_all (a ∷ as') = record a { qty = a.size } ∷ take_all as'

-- 1. The FIFO slice.
unfoldable pub fifo_pass : ℕ → List Allocation → List Allocation
fifo_pass fifo [] = []
fifo_pass fifo (a ∷ as') =
    let rest = fifo_pass (fifo - min fifo a.size) as' in
    if eqb fifo 0 then a ∷ as' else record a { qty = min fifo a.size } ∷ rest

-- 2. One order's share of the pro-rata quantity.
unfoldable pub share : ProRataConfig → (pro_rata base : ℕ) → Allocation → ℕ
share c pro_rata base a =
    let s = floor_lot c (mul_div_floor pro_rata (a.size - a.qty) base) in
    if ltb s c.min_allocation then 0 else s

unfoldable pub share_pass : ProRataConfig → (pro_rata base : ℕ) → List Allocation → List Allocation
share_pass c pro_rata base [] = []
share_pass c pro_rata base (a ∷ as') =
    record a { qty = a.qty + share c pro_rata base a } ∷ share_pass c pro_rata base as'

-- What the loop of step 2 leaves of `left`.
unfoldable pub share_left : ProRataConfig → (pro_rata base left : ℕ) → List Allocation → ℕ
share_left c pro_rata base left [] = left
share_left c pro_rata base left (a ∷ as') =
    share_left c pro_rata base (left - share c pro_rata base a) as'

-- 3. Whatever is left goes FIFO, with no minimum.
unfoldable pub leftover_pass : ℕ → List Allocation → List Allocation
leftover_pass left [] = []
leftover_pass left (a ∷ as') =
    let extra = min left (a.size - a.qty) in
    let rest = leftover_pass (left - extra) as' in
    if eqb left 0 then a ∷ as' else record a { qty = a.qty + extra } ∷ rest

unfoldable pub fifo_slice : ProRataConfig → ℕ → ℕ
fifo_slice c qty =
    if ltb 0 c.fifo_percent then floor_lot c (mul_div_floor qty c.fifo_percent 100) else 0

-- Steps 2 and 3, on the allocations that step 1 left; `left` is what remains of `qty`.
unfoldable pub spread : ProRataConfig → (total qty left : ℕ) → List Allocation → List Allocation
spread c total qty left as' =
    let base = total - (qty - left) in
    if ltb 0 left
    then leftover_pass (share_left c left base left as') (share_pass c left base as')
    else leftover_pass left as'

-- `find` is `OrderBook::findOrder` where `resolve` is set, and answers none where it is not.
unfoldable pub allocate : ProRataConfig → (ℕ → Option ℕ) → List RestingOrder → ℕ → List Allocation
allocate c find orders qty =
    let opened = open_allocations find orders in
    let total = total_size opened in
    let slice = fifo_slice c qty in
    if leb total qty
    then take_all opened
    else spread c total qty (qty - slice) (fifo_pass slice opened)
