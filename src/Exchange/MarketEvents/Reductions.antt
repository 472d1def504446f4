-- ===== src/Exchange/MarketEvents/Reductions.antt =====
-- The reductions that reconcilePhantomQty chooses, against the queue that they are chosen from.
use slick_sim.Prelude.{
  ℕ, ◌+◌, ◌-◌, ◌≡◌, refl, ap, ◌∙◌, arith, Bool, true, false, ◌||◌, List, [], ◌∷◌, ltb, eqb,
  if◌then◌else◌, min, ◌⊎◌, Bool-cases, inl, inr, eqb_refl,
}
use slick_sim.OrderBook.L3.{RestingOrder, holds}
use slick_sim.Exchange.MarketEvents.{PhantomReduction, reduction, choose_reductions}

-- No two orders have one id.
abbrev pub Distinct : List RestingOrder → Type 0
Distinct [] = Unit {0}
Distinct (o ∷ os) = (holds o.order_id os ≡ false) × Distinct os

abbrev pub names : ℕ → List PhantomReduction → Bool
names id [] = false
names id (r ∷ rs) = eqb r.order_id id || names id rs

-- What an order has after the reductions.
abbrev pub reduced : List PhantomReduction → RestingOrder → ℕ
reduced [] o = o.quantity
reduced (r ∷ rs) o = if eqb r.order_id o.order_id then r.new_qty else reduced rs o

-- The quantity of the orders that are not the simulator's own, before and after the reductions.
abbrev pub market_qty : (own : ℕ → Bool) → List RestingOrder → ℕ
market_qty own [] = 0
market_qty own (o ∷ os) = (if own o.order_id then 0 else o.quantity) + market_qty own os

abbrev pub reduced_qty : (own : ℕ → Bool) → List PhantomReduction → List RestingOrder → ℕ
reduced_qty own rs [] = 0
reduced_qty own rs (o ∷ os) = (if own o.order_id then 0 else reduced rs o) + reduced_qty own rs os

-- Only the last reduction leaves its order a quantity.
abbrev pub Empties : List PhantomReduction → Type 0
Empties [] = Unit {0}
Empties (r ∷ []) = Unit {0}
Empties (r ∷ (r' ∷ rs)) = (r.new_qty ≡ 0) × Empties (r' ∷ rs)

-- A reduction of an order that is elsewhere changes nothing here.
reduced_qty-other :
    (own : ℕ → Bool) (r : PhantomReduction) (rs : List PhantomReduction) (os : List RestingOrder)
    → holds r.order_id os ≡ false
    → reduced_qty own (r ∷ rs) os ≡ reduced_qty own rs os
reduced_qty-other own r rs [] h = refl
reduced_qty-other own r rs (o ∷ os) h = elim (Bool-cases (eqb o.order_id r.order_id)) [
  | inl e ↦ (let no : true ≡ false = rw e at h in cc)
  | inr e ↦
      (let e' : eqb r.order_id o.order_id ≡ false = ground arith in
        let rest = reduced_qty-other own r rs os (rw e at h) in
        rw e' (ap (λ n. (if own o.order_id then 0 else reduced rs o) + n) rest))
]

reduced_qty-none :
    (own : ℕ → Bool) (os : List RestingOrder) → reduced_qty own [] os ≡ market_qty own os
reduced_qty-none own [] = refl
reduced_qty-none own (o ∷ os) = omega (arith, reduced_qty-none own os)

choose_reductions-done :
    (own : ℕ → Bool) (diff : ℕ) (os : List RestingOrder)
    → ltb 0 diff ≡ false
    → choose_reductions own diff os ≡ []
unfolding choose_reductions
choose_reductions-done own diff [] h = refl
choose_reductions-done own diff (o ∷ os) h = rw h refl

Empties-cons :
    (r : PhantomReduction) (rs : List PhantomReduction)
    → (r.new_qty ≡ 0) ⊎ (rs ≡ [])
    → Empties rs
    → Empties (r ∷ rs)
Empties-cons r [] h es = tt
Empties-cons r (r' ∷ rs) (inl z) es = (z, es)
Empties-cons r (r' ∷ rs) (inr none) es = cc

choose_reductions-Empties :
    (own : ℕ → Bool) (diff : ℕ) (os : List RestingOrder) → Empties (choose_reductions own diff os)
unfolding choose_reductions reduction
choose_reductions-Empties own diff [] = tt
choose_reductions-Empties own diff (o ∷ os) = elim (Bool-cases (ltb 0 diff)) [
  | inr l ↦ rw l tt
  | inl l ↦ rw l (elim (Bool-cases (own o.order_id)) [
    | inl w ↦ rw w (choose_reductions-Empties own diff os)
    | inr w ↦
        (let left = diff - min diff o.quantity in
          let ends : (o.quantity - min diff o.quantity ≡ 0) ⊎ (choose_reductions own left os ≡ []) =
            elim (Bool-cases (ltb 0 left)) [
              | inl more ↦
                  (let whole : o.quantity - min diff o.quantity ≡ 0 = ground arith in inl whole)
              | inr done ↦ inr (choose_reductions-done own left os done)
            ] in
          rw w (
            Empties-cons (reduction o (min diff o.quantity)) _ ends
              (choose_reductions-Empties own left os)))
  ])
]

module _ (own : ℕ → Bool) (diff : ℕ) (o : RestingOrder) (os : List RestingOrder)
    (more : ltb 0 diff ≡ true) where
  choose_reductions-pass :
      own o.order_id ≡ true → choose_reductions own diff (o ∷ os) ≡ choose_reductions own diff os
  unfolding choose_reductions
  choose_reductions-pass w = rw (more, w) refl

  choose_reductions-cut :
      own o.order_id ≡ false
      → choose_reductions own diff (o ∷ os)
        ≡ reduction o (min diff o.quantity) ∷ choose_reductions own (diff - min diff o.quantity) os
  unfolding choose_reductions
  choose_reductions-cut w = rw (more, w) refl

reduced_qty-choose :
    (own : ℕ → Bool) (diff : ℕ) (os : List RestingOrder)
    → Distinct os
    → reduced_qty own (choose_reductions own diff os) os ≡ market_qty own os - diff
unfolding reduction
reduced_qty-choose own diff [] d = omega arith
reduced_qty-choose own diff (o ∷ os) (new, d) =
    let by = λ (rs : List PhantomReduction). reduced_qty own rs (o ∷ os) in
    elim (Bool-cases (ltb 0 diff)) [
      | inr l ↦
          (let none_left = reduced_qty-none own (o ∷ os) in
            let zero_left : diff ≡ 0 = ground arith in
            ap by (choose_reductions-done own diff (o ∷ os) l) ∙ omega arith)
      | inl l ↦ elim (Bool-cases (own o.order_id)) [
        | inl w ↦
            (let rest = reduced_qty-choose own diff os d in
              ap by (choose_reductions-pass own diff o os l w) ∙ rw w (omega arith))
        | inr w ↦
            (let left = diff - min diff o.quantity in
              let r = reduction o (min diff o.quantity) in
              let rs = choose_reductions own left os in
              let rest = reduced_qty-choose own left os d in
              let other = reduced_qty-other own r rs os new in
              let here : by (r ∷ rs)
                  ≡ o.quantity - min diff o.quantity + reduced_qty own (r ∷ rs) os =
                rw (w, eqb_refl o.order_id) refl in
              ap by (choose_reductions-cut own diff o os l w) ∙ here ∙ rw w (omega arith))
      ]
    ]

choose_reductions-own :
    (own : ℕ → Bool) (id diff : ℕ) (os : List RestingOrder)
    → own id ≡ true
    → names id (choose_reductions own diff os) ≡ false
unfolding choose_reductions reduction
choose_reductions-own own id diff [] h = refl
choose_reductions-own own id diff (o ∷ os) h = elim (Bool-cases (ltb 0 diff)) [
  | inr l ↦ rw l refl
  | inl l ↦ rw l (elim (Bool-cases (own o.order_id)) [
    | inl w ↦ rw w (choose_reductions-own own id diff os h)
    | inr w ↦
        (let rest = choose_reductions-own own id (diff - min diff o.quantity) os h in
          rw w (elim (Bool-cases (eqb o.order_id id)) [
            | inl e ↦
                (let is : o.order_id ≡ id = ground arith in
                  let own_o : own o.order_id ≡ true = ap own is ∙ h in cc)
            | inr e ↦ rw e rest
          ]))
  ])
]

-- Of a queue without repeated ids, listed from its back, the reductions take exactly `diff` from the
-- market's quantity, or all of it where that is less; they name no order of the simulator's own; and they
-- empty every order that they name but the last.
pub choose_reductions_lem :
    (own : ℕ → Bool) (diff : ℕ) (os : List RestingOrder)
    → Distinct os
    → let rs = choose_reductions own diff os in
      (reduced_qty own rs os ≡ market_qty own os - diff)
      × ((id : ℕ) → own id ≡ true → names id rs ≡ false)
      × Empties rs
choose_reductions_lem own diff os d = (
  reduced_qty-choose own diff os d,
  λ id h. choose_reductions-own own id diff os h,
  choose_reductions-Empties own diff os,
)
