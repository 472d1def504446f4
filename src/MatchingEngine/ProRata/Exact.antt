-- ===== src/MatchingEngine/ProRata/Exact.antt =====
-- mul_div_floor of utils/math.hpp: no bit of the product and of the quotient is lost.
use slick_sim.Prelude.{ℕ, suc, ◌+◌, ◌*◌, ◌/◌, ◌%◌, ◌^◌, ◌≤◌, ◌<◌, ◌≡◌, ap, ◌∙◌, arith}
use native.Mathlib.Nat.{
  mod-eq_of_lt, mul-le-mul, mul-le-mul_left, div-lt_iff_lt-mul, lt-div-mul-add, div-mul-le_self,
  suc-mul,
}
use slick_sim.MatchingEngine.ProRata.{mul_div_floor}

product_fits : (a b : ℕ) → a < 2 ^ 64 → b < 2 ^ 64 → a * b < 2 ^ 128
product_fits a b ha hb =
    let most : a * b ≤ 18446744073709551615 * 18446744073709551615 =
      mul-le-mul {n₂ = 18446744073709551615} {m₂ = 18446744073709551615} (omega arith)
        (omega arith) in
    omega arith

share_le : (a b c : ℕ) → 0 < c → b ≤ c → a * b / c ≤ a
share_le a b c hc h =
    let le : a * b ≤ a * c = mul-le-mul_left a h in
    let next = suc-mul a c in
    let lt : a * b / c < suc a = (div-lt_iff_lt-mul hc).1 (omega arith) in omega arith

mul_div_floor-exact :
    (a b c : ℕ) → a < 2 ^ 64 → c < 2 ^ 64 → b ≤ c → 0 < c → mul_div_floor a b c ≡ a * b / c
unfolding mul_div_floor
mul_div_floor-exact a b c ha hc h pos =
    let part = share_le a b c pos h in
    let fits = product_fits a b ha (omega arith) in
    ap (λ p. p / c % 2 ^ 64) (mod-eq_of_lt fits) ∙ mod-eq_of_lt (omega arith)

-- For 64-bit a, b and c with b ≤ c and c positive, mul_div_floor is the floor of a * b / c, the greatest
-- number whose product with c is at most a * b, and is at most a.
pub mul_div_floor_lem :
    (a b c : ℕ)
    → a < 2 ^ 64
    → c < 2 ^ 64
    → b ≤ c
    → 0 < c
    → (mul_div_floor a b c * c ≤ a * b)
      × (a * b < mul_div_floor a b c * c + c)
      × (mul_div_floor a b c ≤ a)
mul_div_floor_lem a b c ha hc h pos =
    rw (mul_div_floor-exact a b c ha hc h pos)
      (div-mul-le_self (a * b) c, lt-div-mul-add pos, share_le a b c pos h)
