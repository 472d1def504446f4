-- ===== src/Examples/Snapshot.antt =====
-- A snapshot frame of two bids and one ask.
use slick_sim.Prelude.{ℕ, ◌≡◌, refl, false, List, [], ◌∷◌, ◌++◌, length}
use slick_sim.Common.Enums.{Side, buy, sell}
use slick_sim.Common.MarketData.{MdLevel, action_new}
use slick_sim.Venues.Snapshot.{emit_from, split_book_snapshot}
use slick_sim.Venues.Snapshot.Split.{published, split_book_snapshot_lem}

abbrev level : (price qty : ℕ) → Side → MdLevel
level price qty side = record {
  event_time = 1;
  seq_num = 1;
  price = price;
  qty = qty;
  num_orders = 1;
  level_index = 0;
  update_action = action_new;
  flags = record { is_snapshot = false; end_event = false; not_in_book = false };
  side = side;
}

abbrev bids : List MdLevel
bids = level 99 5 buy ∷ level 98 2 buy ∷ []

abbrev asks : List MdLevel
asks = level 100 4 sell ∷ []

split_book_snapshot_lem_example :
    split_book_snapshot (bids ++ asks) (length bids) (length asks)
    ≡ (published bids, published asks)
split_book_snapshot_lem_example = split_book_snapshot_lem bids asks

split_counts : (split_book_snapshot (bids ++ asks) 1 2).1.baseline ≡ (98, 2) ∷ (100, 4) ∷ []
unfolding split_book_snapshot emit_from
split_counts = refl
