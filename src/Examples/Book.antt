-- ===== src/Examples/Book.antt =====
-- A small order-by-order book of one side, the sells, that keeps the laws of the L3 book.
use slick_sim.Prelude.{
  ℕ, ◌+◌, ◌-◌, ◌<◌, ◌≡◌, refl, Bool, true, false, ◌&&◌, List, [], ◌∷◌, ◌++◌, arith, eqb, eqb_refl,
  ltb, if◌then◌else◌, ap, length, head?, All, Bool-cases, inl, inr,
}
use slick_sim.Common.Enums.{Side}
use slick_sim.OrderBook.L3.{
  RestingOrder, PriceLevelL3, Event, order_update, Outcome, OrderBookL3, IsOrderBookL3, IsLevel,
  IsCurrent, RestsWith, RestsOn, holds, cut_orders, drop_orders, restack, cut_levels, drop_levels,
}

pub record Sells : Type 0 where
  pub levels : List PriceLevelL3
  pub last : ℕ

abbrev pub sells : Side → Sells → List PriceLevelL3
sells Side.sell b = b.levels
sells Side.buy b = []
sells Side.unknown_side b = []

abbrev size_in : ℕ → List RestingOrder → ℕ
size_in id [] = 0
size_in id (o ∷ os) = if eqb o.order_id id then o.quantity else size_in id os

abbrev size_on : ℕ → List PriceLevelL3 → ℕ
size_on id [] = 0
size_on id (l ∷ ls) = if holds id l.orders then size_in id l.orders else size_on id ls

abbrev rests : ℕ → List PriceLevelL3 → Bool
rests id [] = false
rests id (l ∷ ls) = if holds id l.orders then true else rests id ls

abbrev later : ℕ → ℕ → ℕ
later last seq = if ltb last seq then seq else last

abbrev behind : ℕ → ℕ → Bool
behind seq last = ltb 0 seq && ltb seq last

abbrev update_of : (id left ts : ℕ) → List PriceLevelL3 → List Event
update_of id left ts ls =
    order_update (record {
      order_id = id;
      side = Side.sell;
      price = 0;
      quantity = left;
      old_price = 0;
      old_qty = size_on id ls;
      priority = 0;
      timestamp = ts;
    })
    ∷ []

abbrev changed : (id left ts seq : ℕ) → List PriceLevelL3 → Sells → Outcome Sells
changed id left ts seq ls b =
    if behind seq b.last
    then (record { book = b; accepted = false; events = [] })
    else if rests id b.levels
    then (record {
      book = record { levels = ls; last = later b.last seq };
      accepted = true;
      events = update_of id left ts b.levels;
    })
    else (record { book = record b { last = later b.last seq }; accepted = false; events = [] })

abbrev pub sell_book : OrderBookL3 Sells
sell_book = record {
  levels = sells;
  best_level = λ s b. head? (sells s b);
  last_seq_num = λ b. b.last;
  add_order = λ id s price qty ts priority seq end b. (record {
    book = record b {
      levels =
          b.levels
          ++ (record {
            price = price;
            total_quantity = qty;
            orders = record { order_id = id; quantity = qty; priority = priority } ∷ [];
          }
              ∷ []);
    };
    accepted = true;
    events = [];
  });
  modify_order =
      λ id price qty ts priority seq end b. (record { book = b; accepted = false; events = [] });
  delete_order = λ id ts seq end b. changed id 0 ts seq (drop_levels id b.levels) b;
  execute_order = λ id qty ts seq end b.
      changed id (size_on id b.levels - qty) ts seq (cut_levels id qty b.levels) b;
  clear = λ b. record b { levels = [] };
}

abbrev Positive : List RestingOrder → Type 0
Positive = All λ o. 0 < o.quantity

RestsWith-size :
    (id q : ℕ) (os : List RestingOrder)
    → RestsWith id q os
    → (holds id os ≡ true) × (size_in id os ≡ q)
RestsWith-size id q [] r = absurd r
RestsWith-size id q (o ∷ os) (inl (e, s)) = (ground arith, ground arith)
RestsWith-size id q (o ∷ os) (inr (d, r)) =
    let (h, s) = RestsWith-size id q os r in (ground arith, ground arith)

pub RestsOn-size :
    (id q : ℕ) (ls : List PriceLevelL3)
    → RestsOn id q ls
    → (rests id ls ≡ true) × (size_on id ls ≡ q)
RestsOn-size id q [] r = absurd r
RestsOn-size id q (l ∷ ls) (inl r) = let (h, s) = RestsWith-size id q l.orders r in rw h (refl, s)
RestsOn-size id q (l ∷ ls) (inr (h, r)) = rw h (RestsOn-size id q ls r)

restack-IsLevel :
    (l : PriceLevelL3) (os : List RestingOrder) (ls : List PriceLevelL3)
    → Positive os
    → All IsLevel ls
    → All IsLevel (restack l os ls)
restack-IsLevel l [] ls p w = w
restack-IsLevel l (o ∷ os) ls p w = (
  record { nonempty = λ e. let f = ap length e in omega arith; positive = p; totalled = refl },
  w,
)

cut_orders-Positive :
    (id q left : ℕ) (os : List RestingOrder)
    → RestsWith id (q + left) os
    → Positive os
    → Positive (cut_orders id q os)
cut_orders-Positive id q left [] r p = absurd r
cut_orders-Positive id q left (o ∷ os) (inl (e, s)) (p, ps) = elim (Bool-cases (eqb o.quantity q)) [
  | inl f ↦ rw (e, eqb_refl id, f) ps
  | inr f ↦ rw (e, eqb_refl id, f) (ground arith, ps)
]
cut_orders-Positive id q left (o ∷ os) (inr (d, r)) (p, ps) =
    let other : eqb o.order_id id ≡ false = ground arith in
    rw other (p, cut_orders-Positive id q left os r ps)

drop_orders-Positive :
    (id : ℕ) (os : List RestingOrder) → Positive os → Positive (drop_orders id os)
drop_orders-Positive id [] p = p
drop_orders-Positive id (o ∷ os) (p, ps) = elim (Bool-cases (eqb o.order_id id)) [
  | inl e ↦ rw e ps
  | inr e ↦ rw e (p, drop_orders-Positive id os ps)
]

pub cut_levels-IsLevel :
    (id q left : ℕ) (ls : List PriceLevelL3)
    → RestsOn id (q + left) ls
    → All IsLevel ls
    → All IsLevel (cut_levels id q ls)
cut_levels-IsLevel id q left [] r w = absurd r
cut_levels-IsLevel id q left (l ∷ ls) (inl r) (w, ws) =
    let (h, s) = RestsWith-size id (q + left) l.orders r in
    rw h (
      restack-IsLevel l (cut_orders id q l.orders) ls
        (cut_orders-Positive id q left l.orders r w.positive) ws)
cut_levels-IsLevel id q left (l ∷ ls) (inr (h, r)) (w, ws) =
    rw h (w, cut_levels-IsLevel id q left ls r ws)

pub drop_levels-IsLevel :
    (id : ℕ) (ls : List PriceLevelL3) → All IsLevel ls → All IsLevel (drop_levels id ls)
drop_levels-IsLevel id [] w = w
drop_levels-IsLevel id (l ∷ ls) (w, ws) = elim (Bool-cases (holds id l.orders)) [
  | inl e ↦ rw e (
      restack-IsLevel l (drop_orders id l.orders) ls (drop_orders-Positive id l.orders w.positive)
        ws)
  | inr e ↦ rw e (w, drop_levels-IsLevel id ls ws)
]

-- A change of an order that rests, with a sequence number that is not behind, is made.
pub changed_lem :
    (id left ts seq : ℕ) (ls : List PriceLevelL3) (b : Sells)
    → IsCurrent seq b.last
    → rests id b.levels ≡ true
    → changed id left ts seq ls b ≡ record {
      book = record { levels = ls; last = later b.last seq };
      accepted = true;
      events = update_of id left ts b.levels;
    }
changed_lem id left ts seq ls b c r =
    let now : behind seq b.last ≡ false = ground arith in rw (now, r) refl

pub later-IsCurrent : (seq last : ℕ) → IsCurrent seq last → IsCurrent seq (later last seq)
later-IsCurrent seq last (inl e) = inl e
later-IsCurrent seq last (inr h) = inr (ground arith)

pub on_sell : (s : Side) (b : Sells) (id q : ℕ) → RestsOn id q (sells s b) → RestsOn id q b.levels
on_sell Side.sell b id q r = r
on_sell Side.buy b id q r = absurd r
on_sell Side.unknown_side b id q r = absurd r

pub sells-IsLevel : (s : Side) (b : Sells) → All IsLevel b.levels → All IsLevel (sells s b)
sells-IsLevel Side.sell b w = w
sells-IsLevel Side.buy b w = tt
sells-IsLevel Side.unknown_side b w = tt

pub cut_sells :
    (t : Side) (b : Sells) (id q last : ℕ)
    → sells t (record { levels = cut_levels id q b.levels; last = last })
      ≡ cut_levels id q (sells t b)
cut_sells Side.sell b id q last = refl
cut_sells Side.buy b id q last = refl
cut_sells Side.unknown_side b id q last = refl

pub drop_sells :
    (t : Side) (b : Sells) (id last : ℕ)
    → sells t (record { levels = drop_levels id b.levels; last = last })
      ≡ drop_levels id (sells t b)
drop_sells Side.sell b id last = refl
drop_sells Side.buy b id last = refl
drop_sells Side.unknown_side b id last = refl

abbrev pub sell_book-IsOrderBookL3 : IsOrderBookL3 sell_book
sell_book-IsOrderBookL3 = record {
  IsBook = λ b. All IsLevel b.levels;
  best-head = λ s b w. refl;
  levels-IsLevel = sells-IsLevel;
  execute_accepted = λ s b id qty left ts seq end w c pos r.
      let (here, size) = RestsOn-size id (qty + left) b.levels (on_sell s b id (qty + left) r) in
      rw (changed_lem id (size_on id b.levels - qty) ts seq (cut_levels id qty b.levels) b c here)
        refl;
  execute-IsBook = λ s b id qty left ts seq end w c pos r.
      let on = on_sell s b id (qty + left) r in
      let (here, size) = RestsOn-size id (qty + left) b.levels on in
      rw (changed_lem id (size_on id b.levels - qty) ts seq (cut_levels id qty b.levels) b c here) (
        cut_levels-IsLevel id qty left b.levels on w,
        later-IsCurrent seq b.last c,
        λ t. cut_sells t b id qty (later b.last seq),
      );
  execute-Concerns = λ s b id qty left ts seq end w c pos r.
      let (here, size) = RestsOn-size id (qty + left) b.levels (on_sell s b id (qty + left) r) in
      rw (changed_lem id (size_on id b.levels - qty) ts seq (cut_levels id qty b.levels) b c here)
        ((refl, omega arith), tt);
  delete-IsBook = λ s b id q ts seq end w c r.
      let (here, size) = RestsOn-size id q b.levels (on_sell s b id q r) in
      rw (changed_lem id 0 ts seq (drop_levels id b.levels) b c here) (
        drop_levels-IsLevel id b.levels w,
        later-IsCurrent seq b.last c,
        λ t. drop_sells t b id (later b.last seq),
      );
  delete-Concerns = λ s b id q ts seq end w c r.
      let (here, size) = RestsOn-size id q b.levels (on_sell s b id q r) in
      rw (changed_lem id 0 ts seq (drop_levels id b.levels) b c here) ((refl, refl), tt);
}
