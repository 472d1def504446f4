-- ===== src/OrderBook/Levels.antt =====
-- How an execution and a removal change the levels of a book: facts about `cut_levels` and
-- `drop_levels`, which the laws of the underlying book speak of.
use slick_sim.Prelude.{
  ℕ, ◌+◌, ◌≤◌, ◌≡◌, refl, true, false, List, [], ◌∷◌, arith, eqb, eqb_refl, if◌then◌else◌, All,
  length, Bool-cases, inl, inr,
}
use slick_sim.OrderBook.L3.{
  RestingOrder, PriceLevelL3, holds, total_of, cut_orders, drop_orders, restack, cut_levels,
  drop_levels,
}

-- How many orders rest, and how much.
abbrev pub count_orders : List PriceLevelL3 → ℕ
count_orders [] = 0
count_orders (l ∷ ls) = length l.orders + count_orders ls

abbrev pub depth : List PriceLevelL3 → ℕ
depth [] = 0
depth (l ∷ ls) = total_of l.orders + depth ls

abbrev pub IsAbsent : ℕ → List PriceLevelL3 → Type 0
IsAbsent id = All λ l. holds id l.orders ≡ false

abbrev pub Priced {ℓ} : (ℕ → Type ℓ) → List PriceLevelL3 → Type ℓ
Priced P = All λ l. P l.price

-- Restacking a level keeps what holds of prices and of the absence of an order.
restack-Priced {ℓ} :
    (P : ℕ → Type ℓ) (l : PriceLevelL3) (os : List RestingOrder) (ls : List PriceLevelL3)
    → P l.price
    → Priced P ls
    → Priced P (restack l os ls)
restack-Priced P l [] ls p ps = ps
restack-Priced P l (o ∷ os) ls p ps = (p, ps)

pub cut_levels-Priced {ℓ} :
    (P : ℕ → Type ℓ) (id q : ℕ) (ls : List PriceLevelL3)
    → Priced P ls
    → Priced P (cut_levels id q ls)
cut_levels-Priced P id q [] p = tt
cut_levels-Priced P id q (l ∷ ls) (p, ps) = elim (Bool-cases (holds id l.orders)) [
  | inl e ↦ rw e (restack-Priced P l (cut_orders id q l.orders) ls p ps)
  | inr e ↦ rw e (p, cut_levels-Priced P id q ls ps)
]

pub drop_levels-Priced {ℓ} :
    (P : ℕ → Type ℓ) (id : ℕ) (ls : List PriceLevelL3) → Priced P ls → Priced P (drop_levels id ls)
drop_levels-Priced P id [] p = tt
drop_levels-Priced P id (l ∷ ls) (p, ps) = elim (Bool-cases (holds id l.orders)) [
  | inl e ↦ rw e (restack-Priced P l (drop_orders id l.orders) ls p ps)
  | inr e ↦ rw e (p, drop_levels-Priced P id ls ps)
]

restack-IsAbsent :
    (j : ℕ) (l : PriceLevelL3) (os : List RestingOrder) (ls : List PriceLevelL3)
    → holds j os ≡ false
    → IsAbsent j ls
    → IsAbsent j (restack l os ls)
restack-IsAbsent j l [] ls a as' = as'
restack-IsAbsent j l (o ∷ os) ls a as' = (a, as')

holds-cut_orders :
    (j id q : ℕ) (os : List RestingOrder)
    → holds j os ≡ false
    → holds j (cut_orders id q os) ≡ false
holds-cut_orders j id q [] h = h
holds-cut_orders j id q (o ∷ os) h = ground (arith, holds-cut_orders j id q os)

holds-drop_orders :
    (j id : ℕ) (os : List RestingOrder) → holds j os ≡ false → holds j (drop_orders id os) ≡ false
holds-drop_orders j id [] h = h
holds-drop_orders j id (o ∷ os) h = ground (arith, holds-drop_orders j id os)

pub cut_levels-IsAbsent :
    (j id q : ℕ) (ls : List PriceLevelL3) → IsAbsent j ls → IsAbsent j (cut_levels id q ls)
cut_levels-IsAbsent j id q [] a = tt
cut_levels-IsAbsent j id q (l ∷ ls) (a, as') = elim (Bool-cases (holds id l.orders)) [
  | inl e ↦
      rw e (
        restack-IsAbsent j l (cut_orders id q l.orders) ls (holds-cut_orders j id q l.orders a) as')
  | inr e ↦ rw e (a, cut_levels-IsAbsent j id q ls as')
]

pub drop_levels-IsAbsent :
    (j id : ℕ) (ls : List PriceLevelL3) → IsAbsent j ls → IsAbsent j (drop_levels id ls)
drop_levels-IsAbsent j id [] a = tt
drop_levels-IsAbsent j id (l ∷ ls) (a, as') = elim (Bool-cases (holds id l.orders)) [
  | inl e ↦
      rw e
        (restack-IsAbsent j l (drop_orders id l.orders) ls (holds-drop_orders j id l.orders a) as')
  | inr e ↦ rw e (a, drop_levels-IsAbsent j id ls as')
]

restack-count :
    (l : PriceLevelL3) (os : List RestingOrder) (ls : List PriceLevelL3)
    → (count_orders (restack l os ls) ≡ length os + count_orders ls)
      × (depth (restack l os ls) ≡ total_of os + depth ls)
restack-count l [] ls = (omega arith, omega arith)
restack-count l (o ∷ os) ls = (refl, refl)

-- The level behind its front order, and the front order first.
abbrev pub Front : PriceLevelL3 → RestingOrder → List RestingOrder → Type 0
Front l o os = l.orders ≡ o ∷ os

pub holds-Front :
    (l : PriceLevelL3) (o : RestingOrder) (os : List RestingOrder)
    → Front l o os
    → holds o.order_id l.orders ≡ true
holds-Front l o os f = rw (f, eqb_refl o.order_id) refl

-- An execution at the front takes its quantity off the depth of the book, and takes the order off
-- exactly when it is the order's whole quantity.
pub cut-Front :
    (l : PriceLevelL3) (ls : List PriceLevelL3) (o : RestingOrder) (os : List RestingOrder) (q : ℕ)
    → Front l o os
    → q ≤ o.quantity
    → let after = cut_levels o.order_id q (l ∷ ls) in
      (depth after + q ≡ depth (l ∷ ls))
      × (count_orders after + (if eqb o.quantity q then 1 else 0) ≡ count_orders (l ∷ ls))
cut-Front l ls o os q f h = rw (holds-Front l o os f) (
    rw (f, eqb_refl o.order_id)
      (elim (Bool-cases (eqb o.quantity q)) [
        | inl e ↦
            rw e
              (let (c, d) = restack-count l os ls in (ground (arith, c, d), ground (arith, c, d)))
        | inr e ↦ rw e (omega arith, omega arith)
      ]))

pub drop-Front :
    (l : PriceLevelL3) (ls : List PriceLevelL3) (o : RestingOrder) (os : List RestingOrder)
    → Front l o os
    → let after = drop_levels o.order_id (l ∷ ls) in
      (depth after + o.quantity ≡ depth (l ∷ ls)) × (count_orders after + 1 ≡ count_orders (l ∷ ls))
drop-Front l ls o os f = rw (holds-Front l o os f) (
    rw (f, eqb_refl o.order_id)
      (let (c, d) = restack-count l os ls in (omega (arith, c, d), omega (arith, c, d))))
