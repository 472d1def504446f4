-- ===== src/MatchingEngine/ProRata/Totals.antt =====
-- What `ProRataMatchingEngine::allocate` gives away in all.
use native.Mathlib.Nat.{mul-le-mul_left, le_of_mul-le-mul_right}
use slick_sim.Prelude.{
  tests, ℕ, ◌-◌, ◌≤◌, ◌<◌, ◌≡◌, min, List, Option, arith, ltb, leb, Bool-cases, inl, inr,
}
use slick_sim.OrderBook.L3.{RestingOrder}
use slick_sim.MatchingEngine.ProRata.{
  ProRataConfig, Allocation, mul_div_floor, open_allocations, total_size, fifo_pass, fifo_slice,
  share_pass, share_left, spread, allocate,
}
use slick_sim.MatchingEngine.ProRata.Passes.{
  given, Fits, room-eq-sub, open_allocations-IsFresh, given-take_all, given-fifo_pass, floor_lot-le,
  mul_div_floor-mul-le, shares-le, share_left-eq-sub, given-share_pass, given-leftover_pass,
}

fifo_slice-le : (c : ProRataConfig) (qty : ℕ) → c.fifo_percent ≤ 100 → fifo_slice c qty ≤ qty
unfolding fifo_slice
fifo_slice-le c qty h =
    let q = mul_div_floor qty c.fifo_percent 100 in
    let up = mul_div_floor-mul-le qty c.fifo_percent 100 in
    let down = floor_lot-le c q in
    ground (arith, le_of_mul-le-mul_right {m = q} {n = qty} {k = 100}, mul-le-mul_left qty h)

spread_lem :
    (c : ProRataConfig) (total qty left : ℕ) (as' : List Allocation)
    → Fits as'
    → total_size as' ≡ total
    → given as' ≡ qty - left
    → left ≤ qty
    → qty < total
    → Fits (spread c total qty left as') × (given (spread c total qty left as') ≡ qty)
unfolding spread
spread_lem c total qty left as' f t g h lt =
    let base = total - (qty - left) in
    let have = room-eq-sub as' f in
    let fit = shares-le c left base as' (omega arith) (omega arith) in
    let (f', sum, total') = given-share_pass c left base as' (omega arith) (omega arith) f in
    let have' = room-eq-sub (share_pass c left base as') f' in
    let rest = share_left-eq-sub c left base left as' in
    elim (Bool-cases (ltb 0 left)) [
      | inl e ↦ rw e (
          let (f2, s2) =
            given-leftover_pass (share_left c left base left as') (share_pass c left base as') f'
              (omega arith) in
          (f2, omega arith))
      | inr e ↦
          rw e (let (f2, s2) = given-leftover_pass left as' f (omega arith) in (f2, omega arith))
    ]

-- With a FIFO percentage of at most 100, the allocation of an incoming quantity to a level gives no
-- order more than its size, and gives away the whole quantity, or the whole level where that is less.
pub given-allocate :
    (c : ProRataConfig) (find : ℕ → Option ℕ) (os : List RestingOrder) (qty : ℕ)
    → c.fifo_percent ≤ 100
    → let out = allocate c find os qty in
      Fits out × (given out ≡ min qty (total_size (open_allocations find os)))
unfolding allocate
given-allocate c find os qty h =
    let opened = open_allocations find os in
    let slice = fifo_slice c qty in
    let small = fifo_slice-le c qty h in
    elim (Bool-cases (leb (total_size opened) qty)) [
      | inl e ↦ rw e (let (f, s) = given-take_all opened in (f, omega tests))
      | inr e ↦ rw e (
          let lt : qty < total_size opened = ground arith in
          let (f, s, t) =
            given-fifo_pass slice opened (open_allocations-IsFresh find os) (omega arith) in
          let (f2, s2) =
            spread_lem c (total_size opened) qty (qty - slice) (fifo_pass slice opened) f t
              (omega arith) (omega arith) lt in
          (f2, omega arith))
    ]
