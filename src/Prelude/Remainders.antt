-- ===== src/Prelude/Remainders.antt =====
-- Positions in a ring: remainders of native numbers.
use Prim.Native.Nat.{ℕ, suc, ◌+◌, ◌/◌, ◌%◌, ◌<◌, ◌≤◌}
use mathlib.Core.Path.{◌≡◌}
use mathlib.Core.Logic.{inl, inr}
use native.Mathlib.Omega.{arith}
use native.Mathlib.Nat.{div-add-mod, mul-le-mul_left, mul-suc}
use slick_sim.Prelude.Tests.{leb, Bool-cases}

-- Two numbers with one remainder are a divisor apart.
pub mod_apart : (s n c : ℕ) → s < n → s % c ≡ n % c → s + c ≤ n
mod_apart s n c less same =
    let ds = div-add-mod s c in
    let dn = div-add-mod n c in
    elim (Bool-cases (leb (n / c) (s / c))) [
      | inl le ↦
          (let m = mul-le-mul_left {m = n / c} {n = s / c} c (ground arith) in absurd (omega arith))
      | inr gt ↦
          (let m = mul-le-mul_left {m = suc (s / c)} {n = n / c} c (ground arith) in
            let split = mul-suc c (s / c) in omega arith)
    ]
