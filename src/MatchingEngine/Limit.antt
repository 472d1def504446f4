-- ===== src/MatchingEngine/Limit.antt =====
-- How far a limit reaches into a side of the book.
use slick_sim.Prelude.{
  ℕ, ◌+◌, ◌-◌, ◌≤◌, ◌≡◌, refl, true, false, List, [], ◌∷◌, arith, inl, inr, eqb, eqb_refl,
  if◌then◌else◌, Bool-cases,
}
use slick_sim.Common.Enums.{Side}
use slick_sim.OrderBook.L3.{RestingOrder, PriceLevelL3, RestsOn, total_of, restack, cut_levels}
use slick_sim.OrderBook.Levels.{Front, holds-Front}
use slick_sim.MatchingEngine.SelfMatch.{beyond}

-- The best level is out of reach, or there is none.
abbrev pub IsOutOfReach : Side → ℕ → List PriceLevelL3 → Type 0
IsOutOfReach side price [] = Unit {0}
IsOutOfReach side price (l ∷ ls) = beyond side price l.price ≡ true

abbrev pub Reached : Side → ℕ → ℕ → Type 0
Reached side price x = beyond side price x ≡ false

-- The front order of a level can give `e`.
pub Front-RestsOn :
    (l : PriceLevelL3) (ls : List PriceLevelL3) (o : RestingOrder) (os : List RestingOrder) (e : ℕ)
    → Front l o os
    → e ≤ o.quantity
    → RestsOn o.order_id (e + (o.quantity - e)) (l ∷ ls)
Front-RestsOn l ls o os e f h = inl (rw f (inl (refl, omega arith)))

-- What the levels within a limit hold.
abbrev pub reachable : Side → ℕ → List PriceLevelL3 → ℕ
reachable side price [] = 0
reachable side price (l ∷ ls) =
    if beyond side price l.price then 0 else total_of l.orders + reachable side price ls

reachable-restack :
    (side : Side) (price : ℕ) (l : PriceLevelL3) (os : List RestingOrder) (ls : List PriceLevelL3)
    → Reached side price l.price
    → reachable side price (restack l os ls) ≡ total_of os + reachable side price ls
reachable-restack side price l [] ls r = omega arith
reachable-restack side price l (o ∷ os) ls r = rw r refl

-- An execution at the front takes its quantity off what is within the limit.
pub cut-Front-reachable :
    (side : Side) (price : ℕ) (l : PriceLevelL3) (ls : List PriceLevelL3) (o : RestingOrder)
    (os : List RestingOrder) (q : ℕ)
    → Reached side price l.price
    → Front l o os
    → q ≤ o.quantity
    → reachable side price (cut_levels o.order_id q (l ∷ ls)) + q ≡ reachable side price (l ∷ ls)
cut-Front-reachable side price l ls o os q r f h =
    rw (r, holds-Front l o os f)
      (rw (f, eqb_refl o.order_id)
        (elim (Bool-cases (eqb o.quantity q)) [
          | inl e ↦ rw e (let c = reachable-restack side price l os ls r in ground (arith, c))
          | inr e ↦ rw (e, r) (omega arith)
        ]))

-- Nothing is within the limit when the best level is not.
pub reachable-zero :
    (side : Side) (price : ℕ) (ls : List PriceLevelL3)
    → IsOutOfReach side price ls
    → reachable side price ls ≡ 0
reachable-zero side price [] h = refl
reachable-zero side price (l ∷ ls) h = rw h refl
