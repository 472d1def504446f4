-- ===== src/Examples/Hyperliquid.antt =====
-- The live feed of Hyperliquid on the small book.
use slick_sim.Prelude.{ℕ, ◌≡◌, ◌+◌, refl, true, false, List, [], ◌∷◌, some}
use slick_sim.Venues.Hyperliquid.{
  WireLevel, diff, HyperliquidChannel, Coin, on_hyperliquid_disconnected, handle_md_subscription,
  process_l2_book_event,
}
use slick_sim.Utils.Price.{is_price_better}
use slick_sim.Venues.Hyperliquid.Applied.{IsApplied, process_l2_book_event-IsApplied}
use slick_sim.Venues.Hyperliquid.Waiting.{here, next, subscribed, handle_md_subscription-unanswered}
use slick_sim.Examples.Book.{Sells, sell_book}
use slick_sim.Examples.Session.{venue}
use slick_sim.Examples.Coinbase.{steady, steady-Answers}

abbrev coin : Coin Sells
coin = record {
  ex = venue;
  ref_bids = 99 ∷ 98 ∷ [];
  ref_asks = 101 ∷ 103 ∷ 104 ∷ [];
  l2_book_pending = true;
  l2_pending = false;
  trades_pending = false;
  num_subscriptions = 1;
}

abbrev ids : ℕ → ℕ → ℕ
ids loop i = 100 + loop + i

abbrev asked : List WireLevel
asked = record { price = 102; qty = 5 } ∷ []

process_l2_book_event-IsApplied_example :
    (c' : Coin Sells) × (process_l2_book_event sell_book steady ids 7
        (diff (1 ∷ []) (0 ∷ 9 ∷ []) [] asked)
        coin
      ≡ some c')
    × IsApplied sell_book steady ids 7 (1 ∷ []) (0 ∷ 9 ∷ []) [] asked coin c'
unfolding is_price_better
process_l2_book_event-IsApplied_example =
    process_l2_book_event-IsApplied sell_book steady steady-Answers ids 7 (1 ∷ []) (0 ∷ 9 ∷ []) []
      asked coin ((refl, tt), (tt, tt)) ((refl, (refl, tt)), ((refl, tt), (tt, tt)))

abbrev reconnected : Coin Sells
reconnected =
    handle_md_subscription sell_book true false HyperliquidChannel.l2_book
      (on_hyperliquid_disconnected coin)

handle_md_subscription-unanswered_example :
    (handle_md_subscription sell_book true false HyperliquidChannel.trades reconnected).ex
    ≡ reconnected.ex
handle_md_subscription-unanswered_example =
    handle_md_subscription-unanswered sell_book steady coin reconnected
      (next here (subscribed HyperliquidChannel.l2_book refl))
