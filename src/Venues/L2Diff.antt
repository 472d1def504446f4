-- ===== src/Venues/L2Diff.antt =====
-- venues/hyperliquid/hyperliquid_l2_diff.cpp: the difference between two states of a book. A level is
-- its price and quantity; how the venue prints a number is left out.

pub mod Levels
pub mod Removal
use slick_sim.Prelude.{
  ℕ, ◌+◌, Bool, true, false, not, List, [], ◌∷◌, ◌++◌, Option, none, some, eqb, if◌then◌else◌,
  lookup, is_some, nat_keyed,
}

abbrev pub is_qty : ℕ → Option ℕ → Bool
is_qty qty none = false
is_qty qty (some q) = eqb q qty

-- Whether the previous state had this price at this quantity. Of two levels at a price the first counts,
-- as in `emplace`.
unfoldable pub unchanged : (price qty : ℕ) → List (ℕ × ℕ) → Bool
unchanged price qty prev = is_qty qty (lookup price prev)

-- The changed and added levels, in book order.
unfoldable pub changed_levels : (prev curr : List (ℕ × ℕ)) → List (ℕ × ℕ)
changed_levels prev [] = []
changed_levels prev ((price, qty) ∷ curr) =
    if unchanged price qty prev
    then changed_levels prev curr
    else ((price, qty) ∷ changed_levels prev curr)

unfoldable pub has_price : ℕ → List (ℕ × ℕ) → Bool
has_price price curr = is_some (lookup price curr)

-- The indices, from `i`, of the levels that are gone, in descending order.
unfoldable pub removed_descending : (i : ℕ) → (prev curr : List (ℕ × ℕ)) → List ℕ
removed_descending i [] curr = []
removed_descending i ((price, qty) ∷ prev) curr =
    removed_descending (i + 1) prev curr ++ (if has_price price curr then [] else i ∷ [])

unfoldable pub removed_ascending : (i : ℕ) → (prev curr : List (ℕ × ℕ)) → List ℕ
removed_ascending i [] curr = []
removed_ascending i ((price, qty) ∷ prev) curr =
    if has_price price curr
    then removed_ascending (i + 1) prev curr
    else (i ∷ removed_ascending (i + 1) prev curr)

-- diff_side
unfoldable pub diff_side :
    (prev curr : List (ℕ × ℕ)) → (descending_index : Bool) → List (ℕ × ℕ) × List ℕ
diff_side prev curr descending_index = (
  changed_levels prev curr,
  (if descending_index then removed_descending 0 prev curr else removed_ascending 0 prev curr),
)

-- What compute_l2_diff puts into `l` and `r`, bids first.
pub record L2Diff : Type 0 where
  pub changed_bids : List (ℕ × ℕ)
  pub changed_asks : List (ℕ × ℕ)
  pub removed_bids : List ℕ
  pub removed_asks : List ℕ

unfoldable pub compute_l2_diff : (prev_bid prev_ask curr_bid curr_ask : List (ℕ × ℕ)) → L2Diff
compute_l2_diff prev_bid prev_ask curr_bid curr_ask =
    let (changed_bids, removed_bids) = diff_side prev_bid curr_bid true in
    let (changed_asks, removed_asks) = diff_side prev_ask curr_ask false in
    record {
      changed_bids = changed_bids;
      changed_asks = changed_asks;
      removed_bids = removed_bids;
      removed_asks = removed_asks;
    }
