-- ===== src/Venues/L2Diff/Levels.antt =====
-- A difference applied by a client: the levels that it leaves at each price.
use slick_sim.Prelude.{
  ℕ, ◌≡◌, refl, sym, ap, ◌∙◌, true, false, List, [], ◌∷◌, Option, none, some, arith, eqb,
  if◌then◌else◌, lookup, assign, lookup-assign, nat_keyed, Bool-cases, inl, inr,
}
use slick_sim.Venues.L2Diff.{is_qty, unchanged, changed_levels, has_price}

-- The client writes each changed level at its price.
unfoldable pub upserts : List (ℕ × ℕ) → List (ℕ × ℕ) → List (ℕ × ℕ)
upserts [] m = m
upserts ((price, qty) ∷ ls) m = upserts ls (assign price qty m)

-- The levels of the previous state that are still there.
abbrev pub kept : (prev curr : List (ℕ × ℕ)) → List (ℕ × ℕ)
kept [] curr = []
kept ((price, qty) ∷ prev) curr =
    if has_price price curr then ((price, qty) ∷ kept prev curr) else kept prev curr

-- No price has two levels.
abbrev pub Distinct : List (ℕ × ℕ) → Type 0
Distinct [] = Unit {0}
Distinct ((price, qty) ∷ ls) = (lookup price ls ≡ none) × Distinct ls

-- What is at a price after the changes: `now` is the new level, `before` the client's.
abbrev patched : (price : ℕ) → List (ℕ × ℕ) → Option ℕ → Option ℕ → Option ℕ
patched price prev before none = before
patched price prev before (some qty) = if unchanged price qty prev then before else some qty

lookup-upserts :
    (p : ℕ) (prev curr m : List (ℕ × ℕ))
    → Distinct curr
    → lookup p (upserts (changed_levels prev curr) m) ≡ patched p prev (lookup p m) (lookup p curr)
unfolding upserts changed_levels lookup
lookup-upserts p prev [] m d = refl
lookup-upserts p prev ((c, q) ∷ curr) m (new, d) = elim (Bool-cases (unchanged c q prev)) [
  | inl same ↦
      (let rest = lookup-upserts p prev curr m d in
        rw same (elim (Bool-cases (eqb c p)) [
          | inl e ↦
              (let is : c ≡ p = ground arith in
                let gone : lookup p curr ≡ none = ap (λ x. lookup x curr) (sym is) ∙ new in
                let here : unchanged p q prev ≡ true =
                  ap (λ x. unchanged x q prev) (sym is) ∙ same in
                rest ∙ ap (patched p prev (lookup p m)) gone ∙ rw (e, here) refl)
          | inr e ↦ rw e rest
        ]))
  | inr other ↦
      (let rest = lookup-upserts p prev curr (assign c q m) d in
        let put = lookup-assign c p q m in
        rw other (elim (Bool-cases (eqb c p)) [
          | inl e ↦
              (let is : c ≡ p = ground arith in
                let gone : lookup p curr ≡ none = ap (λ x. lookup x curr) (sym is) ∙ new in
                let here : unchanged p q prev ≡ false =
                  ap (λ x. unchanged x q prev) (sym is) ∙ other in
                rest ∙ ap (patched p prev (lookup p (assign c q m))) gone ∙ put ∙ rw (e, here) refl)
          | inr e ↦
              (let same_m : lookup p (assign c q m) ≡ lookup p m = put ∙ rw e refl in
                rest ∙ ap (λ v. patched p prev v (lookup p curr)) same_m ∙ rw e refl)
        ]))
]

lookup-kept :
    (p : ℕ) (prev curr : List (ℕ × ℕ))
    → lookup p (kept prev curr) ≡ (if has_price p curr then lookup p prev else none)
unfolding lookup
lookup-kept p [] curr = ground arith
lookup-kept p ((c, q) ∷ prev) curr =
    let rest = lookup-kept p prev curr in
    elim (Bool-cases (eqb c p)) [
      | inl e ↦
          (let is : c ≡ p = ground arith in
            elim (Bool-cases (has_price c curr)) [
              | inl h ↦ (let here = ap (λ x. has_price x curr) (sym is) ∙ h in rw (h, e, here) refl)
              | inr h ↦
                  (let here = ap (λ x. has_price x curr) (sym is) ∙ h in
                    rw h (rest ∙ rw (e, here) refl))
            ])
      | inr e ↦ elim (Bool-cases (has_price c curr)) [
        | inl h ↦ rw (h, e) rest
        | inr h ↦ rw (h, e) rest
      ]
    ]

is_qty-some : (q : ℕ) (o : Option ℕ) → is_qty q o ≡ true → o ≡ some q
is_qty-some q none h = ground arith
is_qty-some q (some v) h = let same : v ≡ q = ground arith in ap some same

-- A changed level is as before where the previous state had it so.
unchanged-lookup :
    (p q : ℕ) (prev : List (ℕ × ℕ)) → unchanged p q prev ≡ true → lookup p prev ≡ some q
unfolding unchanged
unchanged-lookup p q prev h = is_qty-some q (lookup p prev) h

patched-kept :
    (p : ℕ) (prev curr : List (ℕ × ℕ)) (o : Option ℕ)
    → lookup p curr ≡ o
    → patched p prev (if has_price p curr then lookup p prev else none) o ≡ o
unfolding has_price
patched-kept p prev curr none e = rw e refl
patched-kept p prev curr (some q) e = elim (Bool-cases (unchanged p q prev)) [
  | inl h ↦ rw (h, e) (unchanged-lookup p q prev h)
  | inr h ↦ rw h refl
]

pub lookup-upserts-kept :
    (p : ℕ) (prev curr : List (ℕ × ℕ))
    → Distinct curr
    → lookup p (upserts (changed_levels prev curr) (kept prev curr)) ≡ lookup p curr
lookup-upserts-kept p prev curr d =
    lookup-upserts p prev curr (kept prev curr) d
    ∙ ap (λ v. patched p prev v (lookup p curr)) (lookup-kept p prev curr)
    ∙ patched-kept p prev curr (lookup p curr) refl
