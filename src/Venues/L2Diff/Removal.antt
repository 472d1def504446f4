-- ===== src/Venues/L2Diff/Removal.antt =====
-- The removals of a difference, as a client applies them.
use slick_sim.Prelude.{
  ℕ, zero, suc, ◌+◌, ◌≡◌, refl, sym, ap, ◌∙◌, ◌≤◌, eqb_refl, false, List, [], ◌∷◌, ◌++◌,
  append_assoc, Option, arith, eqb, if◌then◌else◌, lookup, nat_keyed, Bool-cases, inl, inr, length,
  length-append,
}
use slick_sim.Venues.L2Diff.{
  changed_levels, has_price, removed_descending, removed_ascending, diff_side, L2Diff,
  compute_l2_diff,
}
use slick_sim.Venues.L2Diff.Levels.{upserts, kept, Distinct, lookup-upserts-kept}

abbrev pub remove_at {ℓ} : {A : Type ℓ} → ℕ → List A → List A
remove_at i [] = []
remove_at zero (x ∷ xs) = xs
remove_at (suc i) (x ∷ xs) = x ∷ remove_at i xs

-- One removal after the other, each at its position in what the last one left.
unfoldable pub remove_each {ℓ} : {A : Type ℓ} → List ℕ → List A → List A
remove_each [] xs = xs
remove_each (i ∷ is) xs = remove_each is (remove_at i xs)

-- All removals at their positions, from `i`, in the list as it was; the positions ascend.
unfoldable pub remove_marked {ℓ} : {A : Type ℓ} → (i : ℕ) → List ℕ → List A → List A
remove_marked i marks [] = []
remove_marked i [] (x ∷ xs) = x ∷ xs
remove_marked i (m ∷ ms) (x ∷ xs) =
    let gone = remove_marked (i + 1) ms xs in
    let stays = remove_marked (i + 1) (m ∷ ms) xs in if eqb i m then gone else (x ∷ stays)

remove_each-append {ℓ} :
    {A : Type ℓ} (is js : List ℕ) (xs : List A)
    → remove_each (is ++ js) xs ≡ remove_each js (remove_each is xs)
unfolding remove_each
remove_each-append [] js xs = refl
remove_each-append (i ∷ is) js xs = remove_each-append is js (remove_at i xs)

remove_at-length {ℓ} :
    {A : Type ℓ} (ps : List A) (x : A) (xs : List A)
    → remove_at (length ps) (ps ++ (x ∷ xs)) ≡ ps ++ xs
remove_at-length [] x xs = refl
remove_at-length (p ∷ ps) x xs = ap (λ ys. p ∷ ys) (remove_at-length ps x xs)

-- Behind a prefix `ps`, the descending removals leave what is kept.
remove_each-descending :
    (ps prev curr : List (ℕ × ℕ))
    → remove_each (removed_descending (length ps) prev curr) (ps ++ prev) ≡ ps ++ kept prev curr
unfolding remove_each removed_descending
remove_each-descending ps [] curr = refl
remove_each-descending ps ((p, q) ∷ prev) curr =
    let x : ℕ × ℕ = (p, q) in
    let deep = removed_descending (length ps + 1) prev curr in
    let longer : length (ps ++ (x ∷ [])) ≡ length ps + 1 = length-append ps (x ∷ []) in
    let rest = remove_each-descending (ps ++ (x ∷ [])) prev curr in
    let behind : remove_each deep (ps ++ (x ∷ prev)) ≡ ps ++ (x ∷ kept prev curr) =
      ap (λ k. remove_each (removed_descending k prev curr) (ps ++ (x ∷ prev))) (sym longer)
      ∙ ap (remove_each (removed_descending (length (ps ++ (x ∷ []))) prev curr))
          (sym (append_assoc ps (x ∷ []) prev))
      ∙ rest
      ∙ append_assoc ps (x ∷ []) (kept prev curr) in
    remove_each-append deep (if has_price p curr then [] else length ps ∷ []) (ps ++ (x ∷ prev))
    ∙ (elim (Bool-cases (has_price p curr)) [
      | inl h ↦ rw h behind
      | inr h ↦ rw h (ap (remove_at (length ps)) behind ∙ remove_at-length ps x (kept prev curr))
    ])

-- The first mark is at `i` or behind.
abbrev From : ℕ → List ℕ → Type 0
From i [] = Unit {0}
From i (m ∷ ms) = i ≤ m

From-weaken : (i : ℕ) (ms : List ℕ) → From (i + 1) ms → From i ms
From-weaken i [] h = tt
From-weaken i (m ∷ ms) h = omega arith

removed_ascending-From : (i : ℕ) (prev curr : List (ℕ × ℕ)) → From i (removed_ascending i prev curr)
unfolding removed_ascending
removed_ascending-From i [] curr = tt
removed_ascending-From i ((p, q) ∷ prev) curr = elim (Bool-cases (has_price p curr)) [
  | inl h ↦ rw h (
      From-weaken i (removed_ascending (i + 1) prev curr)
        (removed_ascending-From (i + 1) prev curr))
  | inr h ↦ (let here : i ≤ i = omega arith in rw h here)
]

remove_marked-skip {ℓ} :
    {A : Type ℓ} (i : ℕ) (ms : List ℕ) (x : A) (xs : List A)
    → From (i + 1) ms
    → remove_marked i ms (x ∷ xs) ≡ x ∷ remove_marked (i + 1) ms xs
unfolding remove_marked
remove_marked-skip i [] x [] h = refl
remove_marked-skip i [] x (y ∷ ys) h = refl
remove_marked-skip i (m ∷ ms) x xs h = let e : eqb i m ≡ false = ground arith in rw e refl

remove_marked-ascending :
    (i : ℕ) (prev curr : List (ℕ × ℕ))
    → remove_marked i (removed_ascending i prev curr) prev ≡ kept prev curr
unfolding remove_marked removed_ascending
remove_marked-ascending i [] curr = refl
remove_marked-ascending i ((p, q) ∷ prev) curr =
    let rest = remove_marked-ascending (i + 1) prev curr in
    let deep = removed_ascending (i + 1) prev curr in
    elim (Bool-cases (has_price p curr)) [
      | inl h ↦ rw h (
          remove_marked-skip i deep (p, q) prev (removed_ascending-From (i + 1) prev curr)
          ∙ ap (λ ls. (p, q) ∷ ls) rest)
      | inr h ↦ rw (h, eqb_refl i) rest
    ]

-- A client that removes the bids one after the other and then writes the changed ones, and removes the
-- asks by their positions in its last state and then writes the changed ones.
unfoldable pub apply_bids : List (ℕ × ℕ) → L2Diff → List (ℕ × ℕ)
apply_bids prev d = upserts d.changed_bids (remove_each d.removed_bids prev)

unfoldable pub apply_asks : List (ℕ × ℕ) → L2Diff → List (ℕ × ℕ)
apply_asks prev d = upserts d.changed_asks (remove_marked 0 d.removed_asks prev)

-- A client that applies the difference of two books, the bids with their removals one after the other,
-- the asks with theirs at the positions of the old book, has at every price of each side what the new
-- book has there, where the new book has no price twice on a side.
pub apply-compute_l2_diff :
    (prev_bid prev_ask curr_bid curr_ask : List (ℕ × ℕ))
    → Distinct curr_bid
    → Distinct curr_ask
    → (p : ℕ)
    → (lookup p (apply_bids prev_bid (compute_l2_diff prev_bid prev_ask curr_bid curr_ask))
        ≡ lookup p curr_bid)
      × (lookup p (apply_asks prev_ask (compute_l2_diff prev_bid prev_ask curr_bid curr_ask))
          ≡ lookup p curr_ask)
unfolding compute_l2_diff diff_side apply_bids apply_asks
apply-compute_l2_diff prev_bid prev_ask curr_bid curr_ask db da p =
    let bids : List (ℕ × ℕ) → Option ℕ =
      λ ls. lookup p (upserts (changed_levels prev_bid curr_bid) ls) in
    let asks : List (ℕ × ℕ) → Option ℕ =
      λ ls. lookup p (upserts (changed_levels prev_ask curr_ask) ls) in
    (
      ap bids (remove_each-descending [] prev_bid curr_bid)
          ∙ lookup-upserts-kept p prev_bid curr_bid db,
      ap asks (remove_marked-ascending 0 prev_ask curr_ask)
          ∙ lookup-upserts-kept p prev_ask curr_ask da,
    )
