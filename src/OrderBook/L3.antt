-- ===== src/OrderBook/L3.antt =====
-- What the code uses of slick::orderbook::OrderBookL3, the order-by-order book that `OrderBook`
-- extends. The book is a library that the build fetches, so it is a parameter: its operations as a
-- record over a type `B` of books, and what its documentation promises as a record of laws.
use slick_sim.Prelude.{
  ℕ, ◌+◌, ◌-◌, ◌≤◌, ◌<◌, ◌≡◌, ◌⊎◌, ◌≢◌, Bool, true, false, ◌||◌, List, [], ◌∷◌, Option, eqb,
  if◌then◌else◌, head?, All,
}
use slick_sim.Common.Enums.{Side}

-- An order of a level's queue.
pub record RestingOrder : Type 0 where
  pub order_id : ℕ
  pub quantity : ℕ
  pub priority : ℕ

pub record PriceLevelL3 : Type 0 where
  pub price : ℕ
  pub total_quantity : ℕ
  pub orders : List RestingOrder

-- What a change to the book tells its observers.
pub record OrderUpdate : Type 0 where
  pub order_id : ℕ
  pub side : Side
  pub price : ℕ
  pub quantity : ℕ
  pub old_price : ℕ
  pub old_qty : ℕ
  pub priority : ℕ
  pub timestamp : ℕ

pub record PriceLevelUpdate : Type 0 where
  pub side : Side
  pub price : ℕ
  pub quantity : ℕ
  pub num_orders : ℕ
  pub level_index : ℕ
  pub timestamp : ℕ
  pub seq_num : ℕ
  pub last_in_batch : Bool

pub data Event : Type 0 where
  order_update : OrderUpdate → Event
  level_update : PriceLevelUpdate → Event

pub record Outcome (B : Type 0) : Type 0 where
  pub book : B
  pub accepted : Bool
  pub events : List Event

-- Levels are listed best price first, a level's orders front of the queue first.
pub record OrderBookL3 (B : Type 0) : Type 0 where
  pub levels : Side → B → List PriceLevelL3
  pub best_level : Side → B → Option PriceLevelL3
  pub last_seq_num : B → ℕ
  pub add_order :
      (order_id : ℕ) → Side → (price qty timestamp priority seq_num : ℕ) → Bool → B → Outcome B
  pub modify_order : (order_id price qty timestamp priority seq_num : ℕ) → Bool → B → Outcome B
  pub delete_order : (order_id timestamp seq_num : ℕ) → Bool → B → Outcome B
  pub execute_order : (order_id qty timestamp seq_num : ℕ) → Bool → B → Outcome B
  pub clear : B → B

abbrev pub holds : ℕ → List RestingOrder → Bool
holds id [] = false
holds id (o ∷ os) = eqb o.order_id id || holds id os

abbrev pub total_of : List RestingOrder → ℕ
total_of [] = 0
total_of (o ∷ os) = o.quantity + total_of os

-- The queue when `qty` of the order `id` is gone: a whole order leaves it, a part stays in place.
abbrev pub cut_orders : (id qty : ℕ) → List RestingOrder → List RestingOrder
cut_orders id qty [] = []
cut_orders id qty (o ∷ os) =
    if eqb o.order_id id
    then (if eqb o.quantity qty then os else (record o { quantity = o.quantity - qty } ∷ os))
    else (o ∷ cut_orders id qty os)

-- The queue without the order `id`.
abbrev pub drop_orders : ℕ → List RestingOrder → List RestingOrder
drop_orders id [] = []
drop_orders id (o ∷ os) = if eqb o.order_id id then os else (o ∷ drop_orders id os)

-- A level stays while it has an order.
abbrev pub restack : PriceLevelL3 → List RestingOrder → List PriceLevelL3 → List PriceLevelL3
restack l [] ls = ls
restack l (o ∷ os) ls = record l { orders = o ∷ os; total_quantity = total_of (o ∷ os) } ∷ ls

abbrev pub cut_levels : (id qty : ℕ) → List PriceLevelL3 → List PriceLevelL3
cut_levels id qty [] = []
cut_levels id qty (l ∷ ls) =
    if holds id l.orders
    then restack l (cut_orders id qty l.orders) ls
    else l ∷ cut_levels id qty ls

abbrev pub drop_levels : ℕ → List PriceLevelL3 → List PriceLevelL3
drop_levels id [] = []
drop_levels id (l ∷ ls) =
    if holds id l.orders then restack l (drop_orders id l.orders) ls else l ∷ drop_levels id ls

-- A level has an order, every order has a quantity, and the level's total is their sum.
pub record IsLevel (l : PriceLevelL3) : Type 0 where
  pub nonempty : l.orders ≢ []
  pub positive : All (λ (o : RestingOrder). 0 < o.quantity) l.orders
  pub totalled : l.total_quantity ≡ total_of l.orders

-- The book takes a change unless its sequence number is set and behind the last one.
abbrev pub IsCurrent : ℕ → ℕ → Type 0
IsCurrent seq_num last = (seq_num ≡ 0) ⊎ (last ≤ seq_num)

-- An order update is about the order that the call named, and states what it has left.
abbrev pub Concerns : (id left : ℕ) → Event → Type 0
Concerns id left (order_update u) = (u.order_id ≡ id) × (u.quantity ≡ left)
Concerns id left (level_update u) = Unit {0}

-- The order `id` rests with `q`.
abbrev pub RestsWith : (id q : ℕ) → List RestingOrder → Type 0
RestsWith id q [] = ⊥
RestsWith id q (o ∷ os) =
    ((o.order_id ≡ id) × (o.quantity ≡ q)) ⊎ ((o.order_id ≢ id) × RestsWith id q os)

abbrev pub RestsOn : (id q : ℕ) → List PriceLevelL3 → Type 0
RestsOn id q [] = ⊥
RestsOn id q (l ∷ ls) = RestsWith id q l.orders ⊎ ((holds id l.orders ≡ false) × RestsOn id q ls)

-- The documented behaviour of the book. `IsBook` is the book's own invariant.
pub record IsOrderBookL3 {B : Type 0} (lib : OrderBookL3 B) : Type 1 where
  pub IsBook : B → Type 0
  pub best-head : (s : Side) (b : B) → IsBook b → lib.best_level s b ≡ head? (lib.levels s b)
  pub levels-IsLevel : (s : Side) (b : B) → IsBook b → All IsLevel (lib.levels s b)
  pub execute_accepted :
      (s : Side) (b : B) (id qty left ts seq : ℕ) (last : Bool)
      → IsBook b
      → IsCurrent seq (lib.last_seq_num b)
      → 0 < qty
      → RestsOn id (qty + left) (lib.levels s b)
      → (lib.execute_order id qty ts seq last b).accepted ≡ true
  pub execute-IsBook :
      (s : Side) (b : B) (id qty left ts seq : ℕ) (last : Bool)
      → IsBook b
      → IsCurrent seq (lib.last_seq_num b)
      → 0 < qty
      → RestsOn id (qty + left) (lib.levels s b)
      → let after = (lib.execute_order id qty ts seq last b).book in
        IsBook after
        × IsCurrent seq (lib.last_seq_num after)
        × ((t : Side) → lib.levels t after ≡ cut_levels id qty (lib.levels t b))
  pub execute-Concerns :
      (s : Side) (b : B) (id qty left ts seq : ℕ) (last : Bool)
      → IsBook b
      → IsCurrent seq (lib.last_seq_num b)
      → 0 < qty
      → RestsOn id (qty + left) (lib.levels s b)
      → All (Concerns id left) (lib.execute_order id qty ts seq last b).events
  pub delete-IsBook :
      (s : Side) (b : B) (id q ts seq : ℕ) (last : Bool)
      → IsBook b
      → IsCurrent seq (lib.last_seq_num b)
      → RestsOn id q (lib.levels s b)
      → let after = (lib.delete_order id ts seq last b).book in
        IsBook after
        × IsCurrent seq (lib.last_seq_num after)
        × ((t : Side) → lib.levels t after ≡ drop_levels id (lib.levels t b))
  pub delete-Concerns :
      (s : Side) (b : B) (id q ts seq : ℕ) (last : Bool)
      → IsBook b
      → IsCurrent seq (lib.last_seq_num b)
      → RestsOn id q (lib.levels s b)
      → All (Concerns id 0) (lib.delete_order id ts seq last b).events
