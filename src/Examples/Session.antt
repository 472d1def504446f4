-- ===== src/Examples/Session.antt =====
-- Requests to an exchange on the small book.
use slick_sim.Prelude.{
  ℕ, String, ◌≡◌, ◌≢◌, refl, arith, false, true, not, ◌∷◌, [], ◌++◌, ◌+◌, List, some, none, inl,
  inr, lookup, string_keyed, reverse, take, min, select, length,
}
use slick_sim.Common.Enums.{
  Side, OrderType, TimeInForce, SelfMatchPreventionMode, ExecType, OrderStatus,
}
use slick_sim.Common.Reasons.{OrdRejectReason}
use slick_sim.Common.MarketData.{MdTrade}
use slick_sim.Common.Messages.{
  AddOrderMessage, CancelOrderMessage, ModifyOrderMessage, add_order, modify_order, cancel_order,
  Request, OrderResponse,
}
use slick_sim.OrderBook.L3.{drop_levels}
use slick_sim.OrderBook.State.{find_order}
use slick_sim.OrderBook.Operations.{find_order_by_client_order_id, find_order_by_order_id}
use slick_sim.OrderBook.Allocation.{Allotment}
use slick_sim.Utils.RingBuffer.{ring_buffer}
use slick_sim.Utils.RingBuffer.Pushes.{pushed}
use slick_sim.Exchange.TradedCredit.{no_credits}
use slick_sim.Exchange.Symbol.{fifo_engine}
use slick_sim.Exchange.Session.{Exchange, client_id_for, reflected_in_book, snapshot_of}
use slick_sim.Exchange.Session.Tape.{tape}
use slick_sim.Exchange.Session.Identities.{client_id_for_lem}
use slick_sim.Exchange.Session.Snapshot.{snapshot_of-pushed}
use slick_sim.Exchange.Requests.{
  has_symbol, named_order, is_taken, handle_new_order_request, handle_cancel_order_request,
  dispatch, process_request,
}
use slick_sim.Exchange.Reports.{order_cancel_pending_asserts}
use slick_sim.Exchange.Symbol.Cancel.{NamesGone}
use slick_sim.Exchange.Requests.Settled.{IsSettled, process_request-IsSettled}
use slick_sim.Exchange.Requests.Refusals.{IsRefusal, modify_nothing, process_request-IsRefusal}
use slick_sim.Exchange.Requests.Returns.{
  IsRestingOrFreed, Answered, handle_new_order_request-returns, handle_cancel_order_request-cancels,
}
use slick_sim.Examples.Book.{Sells, sells, sell_book, sell_book-IsOrderBookL3}
use slick_sim.Examples.Matching.{
  someone, sells_of_two, resting, sells_of_two-IsBook, sells_of_two-Priced,
}

abbrev pub trade : (id time : ℕ) → MdTrade
trade id time = record {
  trade_id = id;
  event_time = time;
  seq_num = 0;
  price = 100;
  qty = 1;
  flags = record { is_snapshot = false; end_event = false; not_in_book = true };
  side = Side.buy;
}

abbrev pub venue : Exchange Sells
venue = record {
  symbol = "BTC";
  symbol_id = 0;
  smp_mode = SelfMatchPreventionMode.cancel_resting;
  publish_order_updates = true;
  book = record resting { by_client_order_id = ("c", 2) ∷ [] };
  last_update_time = 5;
  trade_history = ring_buffer (trade 0 0) 64;
  md_queue = [];
  credits = no_credits;
  market_changed = false;
  client_ids = [];
  next_client_id = 0;
  next_trade_id = 1;
}

abbrev quote : CancelOrderMessage
quote = record { user_id = "u"; order_id = ""; client_order_id = "c" }

abbrev withdrawal : Request
withdrawal = record { time_stamp = 3; symbol = "BTC"; request_tag = 8; body = cancel_order quote }

abbrev drawn : Allotment
drawn = record { slot = someone; uuid = "uuid"; id = 9; now = 4 }

pub venue-IsSettled : IsSettled (trade 0 0) 64 venue
unfolding tape pushed lookup
venue-IsSettled = record {
  flushed = (refl, refl);
  keeps = (
    record { history = refl; numbered = tt },
    record { below = λ u i h. cc; one_user = λ u v i h k. cc },
  );
}

process_request-IsSettled_example :
    IsSettled
      (trade 0 0)
      64
      (handle_cancel_order_request sell_book (fifo_engine sell_book 5) withdrawal quote 6 venue)
unfolding process_request dispatch
process_request-IsSettled_example =
    process_request-IsSettled (trade 0 0) 64 sell_book (fifo_engine sell_book 5) withdrawal drawn 6
      7 venue
      (handle_cancel_order_request sell_book (fifo_engine sell_book 5) withdrawal quote 6 venue)
      venue-IsSettled refl

handle_cancel_order_request-cancels_example :
    let after =
      (handle_cancel_order_request sell_book
        (fifo_engine sell_book 5)
        withdrawal
        quote
        6
        venue).book in
    sell_book-IsOrderBookL3.IsBook after.l3
    × ((t : Side) → sells t after.l3 ≡ drop_levels 2 (sells t sells_of_two))
    × (find_order 2 after ≡ none)
    × NamesGone 2 venue.book after
    × (after.freed ≡ 2 ∷ [])
    × ((done pending : OrderResponse) × (after.responses ≡ done ∷ (pending ∷ []))
        × Answered withdrawal (venue.book.pool 2) pending
        × Answered withdrawal (venue.book.pool 2) done
        × (pending.exec_type ≡ ExecType.pending_cancel)
        × (pending.leaves_qty ≡ (venue.book.pool 2).quantity)
        × (done.exec_type ≡ ExecType.canceled)
        × (done.order_status ≡ OrderStatus.canceled)
        × (done.leaves_qty ≡ 0))
unfolding has_symbol named_order find_order_by_client_order_id lookup find_order
    order_cancel_pending_asserts
handle_cancel_order_request-cancels_example =
    handle_cancel_order_request-cancels sell_book sell_book-IsOrderBookL3 (fifo_engine sell_book 5)
      Side.sell 2 1 6 withdrawal quote venue refl refl refl refl sells_of_two-IsBook
      (inl (inr ((λ e. omega arith), inl (refl, refl))))

abbrev lost : ModifyOrderMessage
lost = record {
  user_id = "u";
  order_id = "gone";
  client_order_id = "";
  new_price = 100;
  new_qty = 1;
}

abbrev amendment : Request
amendment = record { time_stamp = 3; symbol = "BTC"; request_tag = 8; body = modify_order lost }

process_request-IsRefusal_example :
    IsRefusal amendment OrdRejectReason.unknown_order venue
      (process_request sell_book (fifo_engine sell_book 5) amendment drawn 6 7 venue)
unfolding named_order find_order_by_order_id lookup
process_request-IsRefusal_example =
    process_request-IsRefusal sell_book (fifo_engine sell_book 5) amendment drawn 6 7 venue
      OrdRejectReason.unknown_order (modify_nothing lost refl refl)

abbrev bid : AddOrderMessage
bid = record {
  user_id = "u";
  client_order_id = "bid";
  side = Side.buy;
  type = OrderType.limit;
  time_in_force = TimeInForce.day;
  price = 100;
  qty = 5;
}

abbrev purchase : Request
purchase = record { time_stamp = 3; symbol = "BTC"; request_tag = 9; body = add_order bid }

handle_new_order_request-returns_example :
    (ex' : Exchange Sells) × (handle_new_order_request sell_book
        (fifo_engine sell_book 5)
        purchase
        bid
        drawn
        7
        venue
      ≡ some ex')
    × IsRestingOrFreed 9 ex'.book
unfolding has_symbol is_taken find_order_by_client_order_id lookup
    slick_sim.MatchingEngine.Fifo.resting_side
handle_new_order_request-returns_example =
    handle_new_order_request-returns sell_book sell_book-IsOrderBookL3 5 purchase bid drawn 7 venue
      refl refl sells_of_two-IsBook sells_of_two-Priced (refl, (refl, tt)) (omega arith)

abbrev user : String
user = "u"

client_id_for_lem_example :
    let (id, ex') = client_id_for user venue in
    ((user ≡ "") → (id ≡ none) × (ex' ≡ venue))
    × ((user ≢ "") → (i : ℕ) × (id ≡ some i) × (lookup user ex'.client_ids ≡ some i))
    × ((v : String) (j : ℕ) → lookup v [] ≡ some j → lookup v ex'.client_ids ≡ some j)
client_id_for_lem_example = client_id_for_lem user venue

abbrev prints : List MdTrade
prints = trade 5 9 ∷ trade 4 3 ∷ trade 3 8 ∷ trade 2 2 ∷ trade 1 1 ∷ []

snapshot_of-pushed_example :
    let held = reverse (take (min 5 3) prints) in
    let settled = select (reflected_in_book 5) held in
    let newer = select (λ t. not (reflected_in_book 5 t)) held in
    let s = snapshot_of 5 (pushed (trade 0 0) 4 prints) in
    (s.trades ≡ settled ++ newer)
    × (s.num_snapshot ≡ length settled)
    × (s.num_update ≡ length newer)
    × (s.num_snapshot + s.num_update ≡ min 5 3)
snapshot_of-pushed_example = snapshot_of-pushed (trade 0 0) 4 5 prints (omega arith)
