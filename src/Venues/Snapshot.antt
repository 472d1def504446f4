-- ===== src/Venues/Snapshot.antt =====
-- split_book_snapshot of venues/hyperliquid/hyperliquid_l2_diff.cpp: a snapshot frame split into the rows
-- that are published and the levels that the next difference starts from.
pub mod Split
use slick_sim.Prelude.{ℕ, zero, suc, ◌+◌, List, [], ◌∷◌, ◌++◌, Option, none, some, get_elem?, min}
use slick_sim.Common.MarketData.{MdLevel}

abbrev pub l2_publish_depth : ℕ
l2_publish_depth = 20

-- A published level; how the venue prints its numbers is left out.
pub record Row : Type 0 where
  pub px : ℕ
  pub sz : ℕ
  pub n : ℕ

-- One side of the result: the rows and the baseline.
pub record SnapshotSide : Type 0 where
  pub rows : List Row
  pub baseline : List (ℕ × ℕ)

abbrev pub row : MdLevel → Row
row l = record { px = l.price; sz = l.qty; n = l.num_orders }

abbrev pub price_qty : MdLevel → ℕ × ℕ
price_qty l = (l.price, l.qty)

-- The lambda `emit`. The source does not check that a frame is as long as its counts; a read behind it
-- adds nothing here.
abbrev pub emit : Option MdLevel → SnapshotSide → SnapshotSide
emit none s = s
emit (some l) s = record {
  rows = s.rows ++ (row l ∷ []);
  baseline = s.baseline ++ (price_qty l ∷ []);
}

-- `count` levels from position `at`.
unfoldable pub emit_from : List MdLevel → (at count : ℕ) → SnapshotSide → SnapshotSide
emit_from levels at zero s = s
emit_from levels at (suc count) s = emit_from levels (at + 1) count (emit (get_elem? levels at) s)

-- The bids and the asks.
unfoldable pub split_book_snapshot :
    List MdLevel → (num_bid num_ask : ℕ) → SnapshotSide × SnapshotSide
split_book_snapshot levels num_bid num_ask =
    let bid_count = min num_bid l2_publish_depth in
    let ask_count = min num_ask l2_publish_depth in
    let cleared : SnapshotSide = record { rows = []; baseline = [] } in
    (emit_from levels 0 bid_count cleared, emit_from levels num_bid ask_count cleared)
