-- ===== src/Exchange/Session/Tape.antt =====
-- The trades that an exchange prints: their ids, and the ring that keeps the newest ones.
use slick_sim.Prelude.{ℕ, ◌+◌, ◌≡◌, refl, ap, false, List, [], ◌∷◌, Bool-cases, inl, inr}
use slick_sim.Common.MarketData.{MdLevel, MdOrder, MdTrade}
use slick_sim.Common.Messages.{TradeSummaryInfo}
use slick_sim.Utils.RingBuffer.{push}
use slick_sim.Utils.RingBuffer.Pushes.{pushed}
use slick_sim.Exchange.Session.{
  TradeSummary, MarketDataUpdate, level, order, trade_summary, sub_response, book_response,
  book_snapshot, Exchange, tape_entry, summary_frame, flush_levels, flush_orders,
  flush_market_data_caches, publish_frame, publish_trade_summary, publish_trade_summaries,
}

-- The trade that a printed frame carries, as the history keeps it.
abbrev pub printed : TradeSummary → MdTrade
printed t = record {
  trade_id = t.trade_id;
  event_time = t.timestamp;
  seq_num = 0;
  price = t.price;
  qty = t.qty;
  flags = record { is_snapshot = false; end_event = false; not_in_book = false };
  side = t.aggressor_side;
}

-- The trades of the frames, the last one first.
unfoldable pub tape : List MarketDataUpdate → List MdTrade
tape [] = []
tape (level ls ∷ fs) = tape fs
tape (order os ∷ fs) = tape fs
tape (trade_summary t ∷ fs) = printed t ∷ tape fs
tape (sub_response s ∷ fs) = tape fs
tape (book_response channel b ∷ fs) = tape fs
tape (book_snapshot b ∷ fs) = tape fs

-- The ids, the last one first, count down from the next one without a gap.
abbrev pub Numbered : ℕ → List MdTrade → Type 0
Numbered next [] = Unit {0}
Numbered next (t ∷ ts) = (next ≡ t.trade_id + 1) × Numbered t.trade_id ts

module _ {B : Type 0} (blank : MdTrade) (capacity : ℕ) where
  -- The history holds what pushing the printed trades leaves, and their ids have no gap.
  pub record IsTaped (ex : Exchange B) : Type 0 where
    pub history : ex.trade_history ≡ pushed blank capacity (tape ex.md_queue)
    pub numbered : Numbered ex.next_trade_id (tape ex.md_queue)

  publish_trade_summary-IsTaped :
      (s : TradeSummaryInfo) (ex : Exchange B) → IsTaped ex → IsTaped (publish_trade_summary s ex)
  unfolding publish_trade_summary publish_frame summary_frame tape_entry tape pushed
  publish_trade_summary-IsTaped s ex h = record {
    history = ap (push (tape_entry ex.next_trade_id s)) h.history;
    numbered = (refl, h.numbered);
  }

  pub publish_trade_summaries-IsTaped :
      (ss : List TradeSummaryInfo) (ex : Exchange B)
      → IsTaped ex
      → IsTaped (publish_trade_summaries ss ex)
  unfolding publish_trade_summaries
  publish_trade_summaries-IsTaped [] ex h = h
  publish_trade_summaries-IsTaped (s ∷ ss) ex h =
      publish_trade_summaries-IsTaped ss (publish_trade_summary s ex)
        (publish_trade_summary-IsTaped s ex h)

  flush_levels-IsTaped :
      (ls : List MdLevel) (ex : Exchange B) → IsTaped ex → IsTaped (flush_levels ls ex)
  unfolding flush_levels publish_frame tape
  flush_levels-IsTaped [] ex h = h
  flush_levels-IsTaped (l ∷ ls) ex h = record { history = h.history; numbered = h.numbered }

  flush_orders-IsTaped :
      (os : List MdOrder) (ex : Exchange B) → IsTaped ex → IsTaped (flush_orders os ex)
  unfolding flush_orders publish_frame tape
  flush_orders-IsTaped [] ex h = h
  flush_orders-IsTaped (o ∷ os) ex h = elim (Bool-cases ex.publish_order_updates) [
    | inl e ↦ rw e (record { history = h.history; numbered = h.numbered })
    | inr e ↦ rw e (record { history = h.history; numbered = h.numbered })
  ]

  pub flush_market_data_caches-IsTaped :
      (ex : Exchange B) → IsTaped ex → IsTaped (flush_market_data_caches ex)
  unfolding flush_market_data_caches
  flush_market_data_caches-IsTaped ex h =
      let sent = flush_levels ex.book.level_cache ex in
      flush_orders-IsTaped sent.book.order_cache sent
        (flush_levels-IsTaped ex.book.level_cache ex h)
