-- ===== src/Utils/Execution/Accounting.antt =====
-- What a sequence of fills does to an order's books.
use native.Mathlib.Nat.{
  le-div_iff_mul-le, div-lt_iff_lt-mul, mod-eq_of_lt, mul-le-mul_right, mul-le-mul,
}
use slick_sim.Prelude.{ℕ, ◌+◌, ◌-◌, ◌*◌, ◌/◌, ◌^◌, ◌≤◌, ◌<◌, ◌≡◌, List, [], ◌∷◌, arith, lt→ltb}
use slick_sim.Common.Order.{Order, reset_fill_accounting}
use slick_sim.Utils.Execution.{execute_order}

pub record Fill : Type 0 where
  pub price : ℕ
  pub executed : ℕ
  pub timestamp : ℕ

-- Fills in the order in which they are booked.
unfoldable pub execute_orders : List Fill → Order → Order
execute_orders [] o = o
execute_orders (f ∷ fs) o = execute_orders fs (execute_order f.price f.executed f.timestamp o)

-- The books of an order add up, and its average lies between the prices `lo` and `hi`.
pub record IsBooked (lo hi : ℕ) (o : Order) : Type 0 where
  pub whole : o.leaves_quantity + o.cum_quantity ≡ o.quantity
  pub above : lo * o.cum_quantity ≤ o.cum_value
  pub below : o.cum_value ≤ hi * o.cum_quantity
  pub average_above : 0 < o.cum_quantity → lo ≤ o.avg_fill_price
  pub average_below : 0 < o.cum_quantity → o.avg_fill_price ≤ hi

-- An order is booked when its fill accounting is reset.
pub reset-IsBooked : (lo hi qty : ℕ) (o : Order) → IsBooked lo hi (reset_fill_accounting qty o)
unfolding reset_fill_accounting
reset-IsBooked lo hi qty o = record {
  whole = omega arith;
  above = omega arith;
  below = omega arith;
  average_above = λ h. elim h [ ];
  average_below = λ h. elim h [ ];
}

-- The value of one more fill stays between the bounds, and does not wrap.
value_bounds :
    (lo hi price executed cum value quantity : ℕ)
    → lo ≤ price
    → price ≤ hi
    → cum + executed ≤ quantity
    → quantity < 2 ^ 63
    → hi < 2 ^ 63
    → lo * cum ≤ value
    → value ≤ hi * cum
    → (lo * (cum + executed) ≤ value + price * executed)
      × (value + price * executed ≤ hi * (cum + executed))
      × (value + price * executed < 2 ^ 128)
value_bounds lo hi price executed cum value quantity hl hh hc hq hb up down =
    let low = mul-le-mul_right executed hl in
    let high = mul-le-mul_right executed hh in
    let small =
      mul-le-mul {n₁ = hi} {m₁ = cum + executed} {n₂ = 2 ^ 63} {m₂ = 2 ^ 63} (omega arith)
        (omega arith) in
    (omega arith, omega arith, omega arith)

average_bounds :
    (lo hi value cum : ℕ)
    → lo * cum ≤ value
    → value ≤ hi * cum
    → 0 < cum
    → (lo ≤ value / cum) × (value / cum ≤ hi)
average_bounds lo hi value cum low high h =
    let up = (div-lt_iff_lt-mul {k = cum} {x = value} {y = hi + 1} h).1 (omega arith) in
    ((le-div_iff_mul-le h).1 low, omega arith)

pub execute_order-IsBooked :
    (lo hi price executed timestamp : ℕ) (o : Order)
    → lo ≤ price
    → price ≤ hi
    → executed ≤ o.leaves_quantity
    → o.quantity < 2 ^ 63
    → hi < 2 ^ 63
    → IsBooked lo hi o
    → IsBooked lo hi (execute_order price executed timestamp o)
unfolding execute_order
execute_order-IsBooked lo hi price executed timestamp o hl hh he hq hb b =
    let cum = o.cum_quantity + executed in
    let value = o.cum_value + price * executed in
    let (low, high, small) =
      value_bounds lo hi price executed o.cum_quantity o.cum_value o.quantity hl hh
        (omega (arith, b.whole)) hq hb b.above b.below in
    let exact = mod-eq_of_lt small in
    let mean = average_bounds lo hi value cum low high in
    record {
      whole = omega (arith, b.whole);
      above = rw exact low;
      below = rw exact high;
      average_above = λ h. rw (exact, lt→ltb 0 cum h) (mean h).0;
      average_below = λ h. rw (exact, lt→ltb 0 cum h) (mean h).1;
    }

-- The fills lie between the prices and take no more than the quantity that is left.
abbrev pub FillsWithin : (lo hi left : ℕ) → List Fill → Type 0
FillsWithin lo hi left [] = Unit
FillsWithin lo hi left (f ∷ fs) =
    (lo ≤ f.price) × (f.price ≤ hi) × (f.executed ≤ left) × FillsWithin lo hi (left - f.executed) fs

execute_orders-IsBooked :
    (lo hi : ℕ) (fs : List Fill) (o : Order)
    → o.quantity < 2 ^ 63
    → hi < 2 ^ 63
    → IsBooked lo hi o
    → FillsWithin lo hi o.leaves_quantity fs
    → IsBooked lo hi (execute_orders fs o)
unfolding execute_orders
execute_orders-IsBooked lo hi [] o hq hb b w = b
execute_orders-IsBooked lo hi (f ∷ fs) o hq hb b (hl, hh, he, w) =
    execute_orders-IsBooked lo hi fs (execute_order f.price f.executed f.timestamp o)
      (unfold execute_order in hq) hb
      (execute_order-IsBooked lo hi f.price f.executed f.timestamp o hl hh he hq hb b)
      (unfold execute_order in w)

-- An order whose fill accounting was reset to a quantity, and that is then filled at prices
-- between `lo` and `hi` for no more than it has left, has leaves and filled quantity that add up
-- to its quantity, and once it has a fill its average price lies between `lo` and `hi`.
pub execute_orders_average :
    (lo hi qty : ℕ) (fs : List Fill) (o : Order)
    → qty < 2 ^ 63
    → hi < 2 ^ 63
    → FillsWithin lo hi qty fs
    → let done = execute_orders fs (reset_fill_accounting qty o) in
      (done.leaves_quantity + done.cum_quantity ≡ done.quantity)
      × (0 < done.cum_quantity → (lo ≤ done.avg_fill_price) × (done.avg_fill_price ≤ hi))
execute_orders_average lo hi qty fs o hq hb w =
    let b =
      execute_orders-IsBooked lo hi fs (reset_fill_accounting qty o)
        (unfold reset_fill_accounting in hq) hb (reset-IsBooked lo hi qty o)
        (unfold reset_fill_accounting in w) in
    (b.whole, λ h. (b.average_above h, b.average_below h))
