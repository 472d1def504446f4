-- ===== src/MatchingEngine/ProRata/Passes.antt =====
-- What each pass of `ProRataMatchingEngine::allocate` gives away, and that it fits.
use native.Mathlib.Nat.{
  mul_comm, mul-le-mul_left, mul-le-mul_right, le_of_mul-le-mul_right, div-mul-le_self, mod-le,
}
use slick_sim.Prelude.{
  ℕ, ◌+◌, ◌-◌, ◌*◌, ◌/◌, ◌%◌, ◌^◌, ◌≤◌, ◌<◌, ◌≡◌, min, List, [], ◌∷◌, Option, arith, All,
}
use slick_sim.OrderBook.L3.{RestingOrder}
use slick_sim.MatchingEngine.ProRata.{
  ProRataConfig, Allocation, mul_div_floor, floor_lot, open_allocations, total_size, take_all,
  fifo_pass, share, share_pass, share_left, leftover_pass,
}

abbrev pub given : List Allocation → ℕ
given [] = 0
given (a ∷ as') = a.qty + given as'

-- What the orders still have.
abbrev pub room : List Allocation → ℕ
room [] = 0
room (a ∷ as') = (a.size - a.qty) + room as'

-- No order is given more than it has.
abbrev pub Fits : List Allocation → Type 0
Fits = All λ a. a.qty ≤ a.size

abbrev pub IsFresh : List Allocation → Type 0
IsFresh = All λ a. a.qty ≡ 0

pub room-eq-sub : (as' : List Allocation) → Fits as' → room as' + given as' ≡ total_size as'
unfolding total_size
room-eq-sub [] f = omega arith
room-eq-sub (a ∷ as') (f, fs) = omega (arith, room-eq-sub as' fs)

pub open_allocations-IsFresh :
    (find : ℕ → Option ℕ) (os : List RestingOrder) → IsFresh (open_allocations find os)
unfolding open_allocations
open_allocations-IsFresh find [] = tt
open_allocations-IsFresh find (o ∷ os) = (omega arith, open_allocations-IsFresh find os)

pub IsFresh-Fits : (as' : List Allocation) → IsFresh as' → Fits as' × (given as' ≡ 0)
IsFresh-Fits [] f = (tt, omega arith)
IsFresh-Fits (a ∷ as') (f, fs) =
    let (rest, none_given) = IsFresh-Fits as' fs in ((omega arith, rest), omega arith)

pub given-take_all :
    (as' : List Allocation) → Fits (take_all as') × (given (take_all as') ≡ total_size as')
unfolding take_all total_size
given-take_all [] = (tt, omega arith)
given-take_all (a ∷ as') =
    let (rest, sum) = given-take_all as' in ((omega arith, rest), omega arith)

pub given-fifo_pass :
    (fifo : ℕ) (as' : List Allocation)
    → IsFresh as'
    → fifo ≤ total_size as'
    → Fits (fifo_pass fifo as')
      × (given (fifo_pass fifo as') ≡ fifo)
      × (total_size (fifo_pass fifo as') ≡ total_size as')
unfolding fifo_pass total_size
given-fifo_pass fifo [] f h = (tt, omega arith, omega arith)
given-fifo_pass fifo (a ∷ as') (f, fs) h =
    let empty = IsFresh-Fits as' fs in
    let rest = given-fifo_pass (fifo - min fifo a.size) as' fs (omega arith) in ground arith

pub floor_lot-le : (c : ProRataConfig) (q : ℕ) → floor_lot c q ≤ q
unfolding floor_lot
floor_lot-le c q = omega arith

pub mul_div_floor-mul-le : (a b c : ℕ) → mul_div_floor a b c * c ≤ a * b
unfolding mul_div_floor
mul_div_floor-mul-le a b c =
    let x = a * b % 2 ^ 128 / c in
    let down = mul-le-mul_right c (mod-le x (2 ^ 64)) in
    omega (arith, down, div-mul-le_self (a * b % 2 ^ 128) c, mod-le (a * b) (2 ^ 128))

-- A share is at most the proportional part, so all shares together are at most the whole.
pub share-mul-le :
    (c : ProRataConfig) (p base : ℕ) (a : Allocation)
    → share c p base a * base ≤ p * (a.size - a.qty)
unfolding share
share-mul-le c p base a =
    let q = mul_div_floor p (a.size - a.qty) base in
    let lots = mul-le-mul_right base (floor_lot-le c q) in
    let whole = mul_div_floor-mul-le p (a.size - a.qty) base in ground (arith, lots, whole)

pub share-le :
    (c : ProRataConfig) (p base : ℕ) (a : Allocation)
    → 0 < base
    → p ≤ base
    → share c p base a ≤ a.size - a.qty
share-le c p base a h le =
    let up = share-mul-le c p base a in
    let top = mul-le-mul_right (a.size - a.qty) le in
    le_of_mul-le-mul_right {k = base} (omega (arith, up, top, mul_comm base (a.size - a.qty))) h

abbrev pub shares : ProRataConfig → (p base : ℕ) → List Allocation → ℕ
shares c p base [] = 0
shares c p base (a ∷ as') = share c p base a + shares c p base as'

shares-mul-le :
    (c : ProRataConfig) (p base : ℕ) (as' : List Allocation)
    → shares c p base as' * base ≤ p * room as'
shares-mul-le c p base [] = omega arith
shares-mul-le c p base (a ∷ as') =
    omega (arith, share-mul-le c p base a, shares-mul-le c p base as')

pub shares-le :
    (c : ProRataConfig) (p base : ℕ) (as' : List Allocation)
    → 0 < base
    → room as' ≤ base
    → shares c p base as' ≤ p
shares-le c p base as' h e =
    let up = mul-le-mul_left p e in
    le_of_mul-le-mul_right {k = base} (omega (arith, up, shares-mul-le c p base as')) h

pub share_left-eq-sub :
    (c : ProRataConfig) (p base left : ℕ) (as' : List Allocation)
    → share_left c p base left as' ≡ left - shares c p base as'
unfolding share_left
share_left-eq-sub c p base left [] = omega arith
share_left-eq-sub c p base left (a ∷ as') =
    omega (arith, share_left-eq-sub c p base (left - share c p base a) as')

pub given-share_pass :
    (c : ProRataConfig) (p base : ℕ) (as' : List Allocation)
    → 0 < base
    → p ≤ base
    → Fits as'
    → Fits (share_pass c p base as')
      × (given (share_pass c p base as') ≡ given as' + shares c p base as')
      × (total_size (share_pass c p base as') ≡ total_size as')
unfolding share_pass total_size
given-share_pass c p base [] h le f = (tt, omega arith, omega arith)
given-share_pass c p base (a ∷ as') h le (f, fs) =
    let (rest, sum, total) = given-share_pass c p base as' h le fs in
    let small = share-le c p base a h le in ((omega arith, rest), omega arith, omega arith)

pub given-leftover_pass :
    (left : ℕ) (as' : List Allocation)
    → Fits as'
    → left ≤ room as'
    → Fits (leftover_pass left as') × (given (leftover_pass left as') ≡ given as' + left)
unfolding leftover_pass
given-leftover_pass left [] f h = (tt, omega arith)
given-leftover_pass left (a ∷ as') (f, fs) h =
    let rest = given-leftover_pass (left - min left (a.size - a.qty)) as' fs (omega arith) in
    ground arith
