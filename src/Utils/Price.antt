-- ===== src/Utils/Price.antt =====
-- utils/price.hpp. The template over the side and the function of the side are one definition.
use slick_sim.Prelude.{ℕ, Bool, ltb, leb}
use slick_sim.Common.Enums.{Side}

unfoldable pub is_price_better : Side → ℕ → ℕ → Bool
is_price_better Side.buy a b = ltb b a
is_price_better Side.sell a b = ltb a b
is_price_better Side.unknown_side a b = ltb a b

unfoldable pub is_price_better_or_equal : Side → ℕ → ℕ → Bool
is_price_better_or_equal Side.buy a b = leb b a
is_price_better_or_equal Side.sell a b = leb a b
is_price_better_or_equal Side.unknown_side a b = leb a b
