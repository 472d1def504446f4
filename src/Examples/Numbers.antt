-- ===== src/Examples/Numbers.antt =====
-- Fills of one order, and the allocation of a level, on small numbers.
use slick_sim.Prelude.{ℕ, ◌≡◌, ◌+◌, ◌*◌, ◌<◌, ◌≤◌, refl, arith, List, [], ◌∷◌, Option, none, min}
use slick_sim.Common.Order.{reset_fill_accounting}
use slick_sim.Utils.Execution.Accounting.{Fill, execute_orders, execute_orders_average}
use slick_sim.OrderBook.L3.{RestingOrder}
use slick_sim.MatchingEngine.ProRata.{
  ProRataConfig, mul_div_floor, allocate, open_allocations, total_size,
}
use slick_sim.MatchingEngine.ProRata.Exact.{mul_div_floor_lem}
use slick_sim.MatchingEngine.ProRata.Passes.{given, Fits}
use slick_sim.MatchingEngine.ProRata.Totals.{given-allocate}
use slick_sim.Examples.Matching.{someone}

abbrev fills : List Fill
fills =
    record { price = 101; executed = 2; timestamp = 5 }
    ∷ record { price = 103; executed = 1; timestamp = 6 }
    ∷ []

execute_orders_average_example :
    let done = execute_orders fills (reset_fill_accounting 5 someone) in
    (done.leaves_quantity + done.cum_quantity ≡ done.quantity)
    × (0 < done.cum_quantity → (101 ≤ done.avg_fill_price) × (done.avg_fill_price ≤ 103))
execute_orders_average_example =
    execute_orders_average 101 103 5 fills someone (omega arith) (omega arith)
      (omega arith, omega arith, omega arith, (omega arith, omega arith, omega arith, tt))

abbrev lots : ProRataConfig
lots = record { lot_size = 2; min_allocation = 3; fifo_percent = 40 }

abbrev queue : List RestingOrder
queue =
    record { order_id = 1; quantity = 5; priority = 1 }
    ∷ record { order_id = 2; quantity = 9; priority = 2 }
    ∷ record { order_id = 3; quantity = 1; priority = 3 }
    ∷ []

abbrev nobody : ℕ → Option ℕ
nobody id = none

given-allocate_example :
    let out = allocate lots nobody queue 10 in
    Fits out × (given out ≡ min 10 (total_size (open_allocations nobody queue)))
given-allocate_example = given-allocate lots nobody queue 10 (omega arith)

given_all : given (allocate lots nobody queue 10) ≡ 10
unfolding allocate open_allocations total_size slick_sim.MatchingEngine.ProRata.fifo_slice
    slick_sim.MatchingEngine.ProRata.spread slick_sim.MatchingEngine.ProRata.fifo_pass
    slick_sim.MatchingEngine.ProRata.leftover_pass slick_sim.MatchingEngine.ProRata.share_pass
    slick_sim.MatchingEngine.ProRata.share_left slick_sim.MatchingEngine.ProRata.share
    slick_sim.MatchingEngine.ProRata.floor_lot slick_sim.MatchingEngine.ProRata.mul_div_floor
given_all = refl

-- A product of 68 bits.
mul_div_floor_lem_example :
    let q = mul_div_floor 500_000_000_000 300_000_000 700_000_000 in
    (q * 700_000_000 ≤ 500_000_000_000 * 300_000_000)
    × (500_000_000_000 * 300_000_000 < q * 700_000_000 + 700_000_000)
    × (q ≤ 500_000_000_000)
mul_div_floor_lem_example =
    mul_div_floor_lem 500_000_000_000 300_000_000 700_000_000 (omega arith) (omega arith)
      (omega arith) (omega arith)
