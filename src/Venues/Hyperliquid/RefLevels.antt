-- ===== src/Venues/Hyperliquid/RefLevels.antt =====
-- The price lists against which a difference names its removals.
use slick_sim.Prelude.{
  ℕ, ◌≡◌, refl, ap, sym, ◌∙◌, Bool, true, false, not, ◌&&◌, ◌||◌, List, [], ◌∷◌, arith, eqb, All,
  Bool-cases, inl, inr,
}
use slick_sim.Common.Enums.{Side}
use slick_sim.Utils.Price.{is_price_better}
use slick_sim.Venues.Hyperliquid.{
  WireLevel, removed_prices, erase_price, erase_prices, insert_price, insert_prices, ref_after,
}

abbrev pub has : ℕ → List ℕ → Bool
has p [] = false
has p (x ∷ xs) = eqb x p || has p xs

abbrev pub names_price : ℕ → List WireLevel → Bool
names_price p [] = false
names_price p (l ∷ ls) = eqb l.price p || names_price p ls

-- Best price first, and no price twice.
abbrev pub IsSorted : Side → List ℕ → Type 0
IsSorted side [] = Unit
IsSorted side (p ∷ ps) = All (λ q. is_price_better side p q ≡ true) ps × IsSorted side ps

better_trans :
    (side : Side) (a b c : ℕ)
    → is_price_better side a b ≡ true
    → is_price_better side b c ≡ true
    → is_price_better side a c ≡ true
unfolding is_price_better
better_trans Side.buy a b c h k = ground arith
better_trans Side.sell a b c h k = ground arith
better_trans Side.unknown_side a b c h k = ground arith

better_apart : (side : Side) (a b : ℕ) → is_price_better side a b ≡ true → eqb a b ≡ false
unfolding is_price_better
better_apart Side.buy a b h = ground arith
better_apart Side.sell a b h = ground arith
better_apart Side.unknown_side a b h = ground arith

better_total :
    (side : Side) (a b : ℕ)
    → is_price_better side a b ≡ false
    → eqb a b ≡ false
    → is_price_better side b a ≡ true
unfolding is_price_better
better_total Side.buy a b h k = ground arith
better_total Side.sell a b h k = ground arith
better_total Side.unknown_side a b h k = ground arith

module _ (side : Side) where
  abbrev Worse : ℕ → List ℕ → Type 0
  Worse p ps = All (λ q. is_price_better side p q ≡ true) ps

  Worse-trans : (p q : ℕ) (ps : List ℕ) → is_price_better side p q ≡ true → Worse q ps → Worse p ps
  Worse-trans p q [] h w = tt
  Worse-trans p q (x ∷ xs) h w = (better_trans side p q x h w.0, Worse-trans p q xs h w.1)

  Worse-absent : (p : ℕ) (ps : List ℕ) → Worse p ps → has p ps ≡ false
  Worse-absent p [] w = refl
  Worse-absent p (x ∷ xs) w =
      let apart = better_apart side p x w.0 in let rest = Worse-absent p xs w.1 in ground arith

  Worse-erase : (p x : ℕ) (ps : List ℕ) → Worse x ps → Worse x (erase_price p ps)
  unfolding erase_price
  Worse-erase p x [] w = tt
  Worse-erase p x (q ∷ qs) w = elim (Bool-cases (eqb q p)) [
    | inl e ↦ rw e w.1
    | inr e ↦ rw e (w.0, Worse-erase p x qs w.1)
  ]

  erase-IsSorted : (p : ℕ) (ps : List ℕ) → IsSorted side ps → IsSorted side (erase_price p ps)
  unfolding erase_price
  erase-IsSorted p [] s = tt
  erase-IsSorted p (q ∷ qs) s = elim (Bool-cases (eqb q p)) [
    | inl e ↦ rw e s.1
    | inr e ↦ rw e (Worse-erase p q qs s.0, erase-IsSorted p qs s.1)
  ]

  has-erase :
      (x p : ℕ) (ps : List ℕ)
      → IsSorted side ps
      → has x (erase_price p ps) ≡ (has x ps && not (eqb p x))
  unfolding erase_price
  has-erase x p [] s = refl
  has-erase x p (q ∷ qs) s = elim (Bool-cases (eqb q p)) [
    | inl e ↦
        (let absent = Worse-absent q qs s.0 in
          rw e (elim (Bool-cases (eqb q x)) [
            | inl same ↦
                (let at : q ≡ x = ground arith in
                  let gone = ap (λ z. has z qs) (sym at) in ground arith)
            | inr other ↦ ground arith
          ]))
    | inr e ↦ (let rest = has-erase x p qs s.1 in rw (e, rest) (ground arith))
  ]

  Worse-insert :
      (p x : ℕ) (ps : List ℕ)
      → is_price_better side x p ≡ true
      → Worse x ps
      → Worse x (insert_price side p ps)
  unfolding insert_price
  Worse-insert p x [] h w = (h, tt)
  Worse-insert p x (q ∷ qs) h w = elim (Bool-cases (is_price_better side q p)) [
    | inl b ↦ rw b (w.0, Worse-insert p x qs h w.1)
    | inr b ↦ rw b (elim (Bool-cases (eqb q p)) [ inl e ↦ rw e w | inr e ↦ rw e (h, w) ])
  ]

  insert-IsSorted :
      (p : ℕ) (ps : List ℕ) → IsSorted side ps → IsSorted side (insert_price side p ps)
  unfolding insert_price
  insert-IsSorted p [] s = (tt, tt)
  insert-IsSorted p (q ∷ qs) s = elim (Bool-cases (is_price_better side q p)) [
    | inl b ↦ rw b (Worse-insert p q qs b s.0, insert-IsSorted p qs s.1)
    | inr b ↦ rw b (elim (Bool-cases (eqb q p)) [
      | inl e ↦ rw e s
      | inr e ↦
          (let over = better_total side q p b e in rw e ((over, Worse-trans p q qs over s.0), s))
    ])
  ]

  has-insert : (x p : ℕ) (ps : List ℕ) → has x (insert_price side p ps) ≡ (eqb p x || has x ps)
  unfolding insert_price
  has-insert x p [] = refl
  has-insert x p (q ∷ qs) = elim (Bool-cases (is_price_better side q p)) [
    | inl b ↦ (let rest = has-insert x p qs in rw (b, rest) (ground arith))
    | inr b ↦ rw b (elim (Bool-cases (eqb q p)) [ inl e ↦ rw e (ground arith) | inr e ↦ rw e refl ])
  ]

  erase_prices-IsSorted :
      (prices ps : List ℕ) → IsSorted side ps → IsSorted side (erase_prices prices ps)
  unfolding erase_prices
  erase_prices-IsSorted [] ps s = s
  erase_prices-IsSorted (p ∷ prices) ps s =
      erase_prices-IsSorted prices (erase_price p ps) (erase-IsSorted p ps s)

  has-erase_prices :
      (x : ℕ) (prices ps : List ℕ)
      → IsSorted side ps
      → has x (erase_prices prices ps) ≡ (has x ps && not (has x prices))
  unfolding erase_prices
  has-erase_prices x [] ps s = ground arith
  has-erase_prices x (p ∷ prices) ps s =
      let rest = has-erase_prices x prices (erase_price p ps) (erase-IsSorted p ps s) in
      let first = has-erase x p ps s in ground arith

  insert_prices-IsSorted :
      (ls : List WireLevel) (ps : List ℕ)
      → IsSorted side ps
      → IsSorted side (insert_prices side ls ps)
  unfolding insert_prices
  insert_prices-IsSorted [] ps s = s
  insert_prices-IsSorted (l ∷ ls) ps s =
      insert_prices-IsSorted ls (insert_price side l.price ps) (insert-IsSorted l.price ps s)

  has-insert_prices :
      (x : ℕ) (ls : List WireLevel) (ps : List ℕ)
      → has x (insert_prices side ls ps) ≡ (names_price x ls || has x ps)
  unfolding insert_prices
  has-insert_prices x [] ps = refl
  has-insert_prices x (l ∷ ls) ps =
      let rest = has-insert_prices x ls (insert_price side l.price ps) in
      let first = has-insert x l.price ps in ground arith

  -- A list after a difference: it has the prices that the difference names as changed, and of the old
  -- ones those that it does not remove. The indices are into the old list.
  abbrev pub IsAfter : (indices : List ℕ) → List WireLevel → (before after : List ℕ) → Type 0
  IsAfter indices changed before after =
      IsSorted side after
      × ((p : ℕ)
          → has p after ≡ (
              names_price p changed
              || (has p before && not (has p (removed_prices indices before)))))

  pub ref_after-IsAfter :
      (indices : List ℕ) (changed : List WireLevel) (prices : List ℕ)
      → IsSorted side prices
      → IsAfter indices changed prices (ref_after side indices changed prices)
  unfolding ref_after
  ref_after-IsAfter indices changed prices s =
      let gone = removed_prices indices prices in
      (
        insert_prices-IsSorted changed (erase_prices gone prices)
            (erase_prices-IsSorted gone prices s),
        λ p.
            (has-insert_prices p changed (erase_prices gone prices)
              ∙ ap (λ b. names_price p changed || b) (has-erase_prices p gone prices s)),
      )
