-- ===== src/Exchange/TradedCredit.antt =====
-- exchange/symbol.hpp: the quantity that trade prints took from mirrored liquidity, kept for each side,
-- price and time stamp until a level update accounts for it.
pub mod Refinement
use slick_sim.Prelude.{
  ℕ, ◌+◌, List, [], ◌∷◌, Option, none, some, eqb, ltb, leb, if◌then◌else◌, lookup, assign, erase,
  nat_keyed,
}
use slick_sim.Common.Enums.{Side}

pub record TradedCredit : Type 0 where
  pub qty : ℕ
  pub event_time : ℕ

-- traded_qty_credit_, one map for each side.
pub record TradedCredits : Type 0 where
  pub buy : List (ℕ × List TradedCredit)
  pub sell : List (ℕ × List TradedCredit)

abbrev pub no_credits : TradedCredits
no_credits = record { buy = []; sell = [] }

-- One credit for each time stamp.
unfoldable pub add_credit :
    (phantom_consumed event_time : ℕ) → List TradedCredit → List TradedCredit
add_credit phantom_consumed event_time [] =
    record { qty = phantom_consumed; event_time = event_time } ∷ []
add_credit phantom_consumed event_time (c ∷ cs) =
    if eqb c.event_time event_time
    then (record c { qty = c.qty + phantom_consumed } ∷ cs)
    else (c ∷ add_credit phantom_consumed event_time cs)

abbrev pub or_empty : Option (List TradedCredit) → List TradedCredit
or_empty none = []
or_empty (some credits) = credits

-- The map's `[]` makes an empty list where there is none.
unfoldable pub credits_at : ℕ → List (ℕ × List TradedCredit) → List TradedCredit
credits_at price by_price = or_empty (lookup price by_price)

unfoldable pub credit_by :
    (price phantom_consumed event_time : ℕ)
    → List (ℕ × List TradedCredit)
    → List (ℕ × List TradedCredit)
credit_by price phantom_consumed event_time by_price =
    if leb phantom_consumed 0
    then by_price
    else assign price (add_credit phantom_consumed event_time (credits_at price by_price)) by_price

-- creditTradedQty
unfoldable pub credit_traded_qty :
    Side → (price phantom_consumed event_time : ℕ) → TradedCredits → TradedCredits
credit_traded_qty Side.buy price phantom_consumed event_time c = record c {
  buy = credit_by price phantom_consumed event_time c.buy;
}
credit_traded_qty Side.sell price phantom_consumed event_time c = record c {
  sell = credit_by price phantom_consumed event_time c.sell;
}
credit_traded_qty Side.unknown_side price phantom_consumed event_time c = c

-- What the update does not reflect, and the credits that are kept for it.
unfoldable pub resolve : (as_of : ℕ) → List TradedCredit → ℕ × List TradedCredit
resolve as_of [] = (0, [])
resolve as_of (c ∷ cs) =
    let (unreflected, kept) = resolve as_of cs in
    if ltb as_of c.event_time then (c.qty + unreflected, c ∷ kept) else (unreflected, kept)

unfoldable pub keep_credits :
    (price : ℕ) → List TradedCredit → List (ℕ × List TradedCredit) → List (ℕ × List TradedCredit)
keep_credits price [] by_price = erase price by_price
keep_credits price (c ∷ cs) by_price = assign price (c ∷ cs) by_price

unfoldable pub take_found :
    (price as_of : ℕ)
    → List (ℕ × List TradedCredit)
    → Option (List TradedCredit)
    → ℕ × List (ℕ × List TradedCredit)
take_found price as_of by_price none = (0, by_price)
take_found price as_of by_price (some credits) =
    let (unreflected, kept) = resolve as_of credits in
    (unreflected, keep_credits price kept by_price)

unfoldable pub take_by :
    (price as_of : ℕ) → List (ℕ × List TradedCredit) → ℕ × List (ℕ × List TradedCredit)
take_by price as_of by_price = take_found price as_of by_price (lookup price by_price)

-- takeTradedQty
unfoldable pub take_traded_qty : Side → (price as_of : ℕ) → TradedCredits → ℕ × TradedCredits
take_traded_qty Side.buy price as_of c =
    let (unreflected, left) = take_by price as_of c.buy in (unreflected, record c { buy = left })
take_traded_qty Side.sell price as_of c =
    let (unreflected, left) = take_by price as_of c.sell in (unreflected, record c { sell = left })
take_traded_qty Side.unknown_side price as_of c = (0, c)
