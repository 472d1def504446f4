-- ===== src/Examples/Diff.antt =====
-- Two books of the difference channel.
use slick_sim.Prelude.{ℕ, ◌≡◌, refl, List, [], ◌∷◌, lookup, nat_keyed}
use slick_sim.Venues.L2Diff.{
  compute_l2_diff, diff_side, removed_ascending, removed_descending, has_price,
}
use slick_sim.Venues.L2Diff.Removal.{remove_each, apply_bids, apply_asks, apply-compute_l2_diff}

abbrev old_bids : List (ℕ × ℕ)
old_bids = (99, 5) ∷ (98, 2) ∷ (97, 7) ∷ (96, 1) ∷ []

abbrev new_bids : List (ℕ × ℕ)
new_bids = (99, 4) ∷ (97, 7) ∷ (95, 3) ∷ []

abbrev old_asks : List (ℕ × ℕ)
old_asks = (100, 5) ∷ (101, 2) ∷ (102, 7) ∷ []

abbrev new_asks : List (ℕ × ℕ)
new_asks = (102, 7) ∷ (103, 1) ∷ []

apply-compute_l2_diff_example :
    (lookup 96 (apply_bids old_bids (compute_l2_diff old_bids old_asks new_bids new_asks))
      ≡ lookup 96 new_bids)
    × (lookup 96 (apply_asks old_asks (compute_l2_diff old_bids old_asks new_bids new_asks))
        ≡ lookup 96 new_asks)
unfolding lookup
apply-compute_l2_diff_example =
    apply-compute_l2_diff old_bids old_asks new_bids new_asks (refl, (refl, (refl, tt)))
      (refl, (refl, tt)) 96

removed : (compute_l2_diff old_bids old_asks new_bids new_asks).removed_bids ≡ 3 ∷ 1 ∷ []
unfolding compute_l2_diff diff_side removed_descending has_price lookup
removed = refl

-- The ask removals one after the other, as they come, leave the wrong level.
shifted : remove_each (removed_ascending 0 old_asks new_asks) old_asks ≡ (101, 2) ∷ []
unfolding removed_ascending has_price lookup remove_each
shifted = refl
