-- ===== src/Exchange/Requests/Settled.antt =====
-- What holds of the exchange between two requests.
use slick_sim.Prelude.{
  ℕ, String, ◌≡◌, refl, List, [], ◌∷◌, Option, none, some, ◌==◌, lookup, string_keyed, Bool-cases,
  inl, inr,
}
use slick_sim.Common.MarketData.{MdLevel, MdOrder, MdTrade}
use slick_sim.Common.Messages.{
  AddOrderMessage, ModifyOrderMessage, CancelOrderMessage, RequestBody, add_order, modify_order,
  cancel_order, md_subscription, md_unsubscription, Request, TradeSummaryInfo, OrderResponse,
}
use slick_sim.OrderBook.L3.{OrderBookL3}
use slick_sim.OrderBook.State.{State, publish}
use slick_sim.OrderBook.Allocation.{Allotment}
use slick_sim.MatchingEngine.Fifo.{MatchResult}
use slick_sim.Exchange.Symbol.{Engine, is_none}
use slick_sim.Exchange.Session.{
  Exchange, client_found, client_id_for, publish_frame, flush_levels, flush_orders,
  flush_market_data_caches, publish_trade_summary, publish_trade_summaries,
}
use slick_sim.Exchange.Session.Tape.{
  IsTaped, publish_trade_summaries-IsTaped, flush_market_data_caches-IsTaped,
}
use slick_sim.Exchange.Session.Identities.{AreAssigned, client_id_for-AreAssigned}
use slick_sim.Exchange.Requests.{
  has_symbol, is_taken, is_reported, on_book, enter_new, enter_modify, enter_cancel,
  send_reject_new, send_reject_modify, send_reject_cancel, conclude_new, conclude_modify,
  accept_new, handle_new_order_request, modify_found, handle_modify_order_request, cancel_found,
  handle_cancel_order_request, dispatch, process_request,
}

module _ {B : Type 0} where
  abbrev pub CachesEmpty : Exchange B → Type 0
  CachesEmpty ex = (ex.book.level_cache ≡ []) × (ex.book.order_cache ≡ [])

  flush_levels-empty :
      (ls : List MdLevel) (ex : Exchange B)
      → ex.book.level_cache ≡ ls
      → (flush_levels ls ex).book.level_cache ≡ []
  unfolding flush_levels
  flush_levels-empty [] ex e = e
  flush_levels-empty (l ∷ ls) ex e = refl

  flush_orders-empty :
      (os : List MdOrder) (ex : Exchange B)
      → ex.book.level_cache ≡ []
      → ex.book.order_cache ≡ os
      → CachesEmpty (flush_orders os ex)
  unfolding flush_orders publish_frame
  flush_orders-empty [] ex sent e = (sent, e)
  flush_orders-empty (o ∷ os) ex sent e = elim (Bool-cases ex.publish_order_updates) [
    | inl on ↦ rw on (sent, refl)
    | inr off ↦ rw off (sent, refl)
  ]

  pub flush_market_data_caches-empty : (ex : Exchange B) → CachesEmpty (flush_market_data_caches ex)
  unfolding flush_market_data_caches
  flush_market_data_caches-empty ex =
      let sent = flush_levels ex.book.level_cache ex in
      flush_orders-empty sent.book.order_cache sent (flush_levels-empty ex.book.level_cache ex refl)
        refl

  flush_levels-AreAssigned :
      (ls : List MdLevel) (ex : Exchange B) → AreAssigned ex → AreAssigned (flush_levels ls ex)
  unfolding flush_levels publish_frame
  flush_levels-AreAssigned [] ex h = h
  flush_levels-AreAssigned (l ∷ ls) ex h = record { below = h.below; one_user = h.one_user }

  flush_orders-AreAssigned :
      (os : List MdOrder) (ex : Exchange B) → AreAssigned ex → AreAssigned (flush_orders os ex)
  unfolding flush_orders publish_frame
  flush_orders-AreAssigned [] ex h = h
  flush_orders-AreAssigned (o ∷ os) ex h = elim (Bool-cases ex.publish_order_updates) [
    | inl e ↦ rw e (record { below = h.below; one_user = h.one_user })
    | inr e ↦ rw e (record { below = h.below; one_user = h.one_user })
  ]

  publish_trade_summaries-AreAssigned :
      (ss : List TradeSummaryInfo) (ex : Exchange B)
      → AreAssigned ex
      → AreAssigned (publish_trade_summaries ss ex)
  unfolding publish_trade_summaries publish_trade_summary publish_frame
  publish_trade_summaries-AreAssigned [] ex h = h
  publish_trade_summaries-AreAssigned (s ∷ ss) ex h =
      publish_trade_summaries-AreAssigned ss (publish_trade_summary s ex)
        (record { below = h.below; one_user = h.one_user })

module _ {B : Type 0} (blank : MdTrade) (capacity : ℕ) where
  -- The tape and the identities.
  abbrev pub Keeps : Exchange B → Type 0
  Keeps ex = IsTaped blank capacity ex × AreAssigned ex

  -- Between two requests no update waits in a cache, the history holds the newest printed trades, whose
  -- ids have no gap, and every identity is of one user.
  pub record IsSettled (ex : Exchange B) : Type 0 where
    pub flushed : CachesEmpty ex
    pub keeps : Keeps ex

  pub on_book-Keeps : (f : State B → State B) (ex : Exchange B) → Keeps ex → Keeps (on_book f ex)
  unfolding on_book
  on_book-Keeps f ex (t, a) = (
    record { history = t.history; numbered = t.numbered },
    record { below = a.below; one_user = a.one_user },
  )

  pub after_match-Keeps :
      (st : State B) (ss : List TradeSummaryInfo) (ex : Exchange B)
      → Keeps ex
      → Keeps (publish_trade_summaries ss (record ex { book = st }))
  unfolding on_book
  after_match-Keeps st ss ex h =
      let put = on_book (λ _. st) ex in
      let (t, a) = on_book-Keeps (λ _. st) ex h in
      (
        publish_trade_summaries-IsTaped blank capacity ss put t,
        publish_trade_summaries-AreAssigned ss put a,
      )

  pub flush-Keeps : (ex : Exchange B) → Keeps ex → Keeps (flush_market_data_caches ex)
  unfolding flush_market_data_caches
  flush-Keeps ex (t, a) =
      let sent = flush_levels ex.book.level_cache ex in
      (
        flush_market_data_caches-IsTaped blank capacity ex t,
        flush_orders-AreAssigned sent.book.order_cache sent
            (flush_levels-AreAssigned ex.book.level_cache ex a),
      )

  client_found-IsTaped :
      (u : String) (ex : Exchange B) (o : Option ℕ)
      → IsTaped blank capacity ex
      → IsTaped blank capacity (client_found u o ex).1
  unfolding client_found
  client_found-IsTaped u ex none t = record { history = t.history; numbered = t.numbered }
  client_found-IsTaped u ex (some i) t = t

  client_id_for-IsTaped :
      (u : String) (ex : Exchange B)
      → IsTaped blank capacity ex
      → IsTaped blank capacity (client_id_for u ex).1
  unfolding client_id_for
  client_id_for-IsTaped u ex t = elim (Bool-cases (u == "")) [
    | inl e ↦ rw e t
    | inr e ↦ rw e (client_found-IsTaped u ex (lookup u ex.client_ids) t)
  ]

  enter_new-Keeps :
      (request : Request) (msg : AddOrderMessage) (a : Allotment) (ex : Exchange B)
      → Keeps ex
      → Keeps (enter_new request msg a ex)
  unfolding enter_new
  enter_new-Keeps request msg a ex (t, ids) =
      let (client_id, known) = client_id_for msg.user_id ex in
      on_book-Keeps _ known
        (client_id_for-IsTaped msg.user_id ex t, client_id_for-AreAssigned msg.user_id ex ids)

-- A claim `F` about the caches that holds when they are empty and that no rejection touches.
module _ {B : Type 0} (blank : MdTrade) (capacity : ℕ) (F : Exchange B → Type 0)
    (empty-F : (ex : Exchange B) → CachesEmpty ex → F ex)
    (reject-F : (fill : OrderResponse → OrderResponse) (ex : Exchange B)
      → F ex
      → F (on_book (publish fill) ex)) where
  abbrev Holds : Exchange B → Type 0
  Holds ex = F ex × Keeps blank capacity ex

  -- Whatever is returned.
  abbrev Ensures : Option (Exchange B) → Type 0
  Ensures none = Unit {0}
  Ensures (some ex) = Holds ex

  flush-Holds : (ex : Exchange B) → Keeps blank capacity ex → Holds (flush_market_data_caches ex)
  flush-Holds ex k = (
    empty-F (flush_market_data_caches ex) (flush_market_data_caches-empty ex),
    flush-Keeps blank capacity ex k,
  )

  reject-Holds :
      (fill : OrderResponse → OrderResponse) (ex : Exchange B)
      → Holds ex
      → Holds (on_book (publish fill) ex)
  reject-Holds fill ex (f, k) =
      (reject-F fill ex f, on_book-Keeps blank capacity (publish fill) ex k)

  conclude_new-Ensures :
      (request : Request) (msg : AddOrderMessage) (now : ℕ) (ex : Exchange B)
      (o : Option (MatchResult B))
      → Keeps blank capacity ex
      → Ensures (conclude_new request msg now ex o)
  unfolding conclude_new send_reject_new
  conclude_new-Ensures request msg now ex none h = tt
  conclude_new-Ensures request msg now ex (some r) h =
      let printed = publish_trade_summaries r.summaries (record ex { book = r.st }) in
      let k = after_match-Keeps blank capacity r.st r.summaries ex h in
      elim (Bool-cases (is_reported r.reason)) [
        | inl e ↦ rw e (flush-Holds _ (on_book-Keeps blank capacity _ printed k))
        | inr e ↦ rw e (flush-Holds printed k)
      ]

  conclude_modify-Ensures :
      (request : Request) (msg : ModifyOrderMessage) (id accepted_tag now : ℕ) (ex : Exchange B)
      (o : Option (MatchResult B))
      → Keeps blank capacity ex
      → Ensures (conclude_modify request msg id accepted_tag now ex o)
  unfolding conclude_modify send_reject_modify
  conclude_modify-Ensures request msg id accepted_tag now ex none h = tt
  conclude_modify-Ensures request msg id accepted_tag now ex (some r) h =
      let printed = publish_trade_summaries r.summaries (record ex { book = r.st }) in
      let k = after_match-Keeps blank capacity r.st r.summaries ex h in
      elim (Bool-cases (is_none r.reason)) [
        | inl e ↦ rw e (flush-Holds printed k)
        | inr e ↦ rw e (
            flush-Holds _
              (on_book-Keeps blank capacity _ _ (on_book-Keeps blank capacity _ printed k)))
      ]

  module _ (lib : OrderBookL3 B) (engine : Engine B) where
    new-Ensures :
        (request : Request) (msg : AddOrderMessage) (a : Allotment) (later : ℕ) (ex : Exchange B)
        → Holds ex
        → Ensures (handle_new_order_request lib engine request msg a later ex)
    unfolding handle_new_order_request accept_new send_reject_new
    new-Ensures request msg a later ex h = elim (Bool-cases (has_symbol request ex)) [
      | inr e ↦ rw e (reject-Holds _ ex h)
      | inl e ↦ rw e (elim (Bool-cases (is_taken msg.client_order_id ex.book)) [
        | inl t ↦ rw t (reject-Holds _ ex h)
        | inr t ↦
            (let entered = enter_new request msg a ex in
              rw t (
                conclude_new-Ensures request msg later entered _
                  (enter_new-Keeps blank capacity request msg a ex h.1)))
      ])
    ]

    modify_found-Ensures :
        (request : Request) (msg : ModifyOrderMessage) (now later : ℕ) (ex : Exchange B)
        (o : Option ℕ)
        → Holds ex
        → Ensures (modify_found lib engine request msg now later ex o)
    unfolding modify_found send_reject_modify enter_modify
    modify_found-Ensures request msg now later ex none h = reject-Holds _ ex h
    modify_found-Ensures request msg now later ex (some id) h =
        conclude_modify-Ensures request msg id (ex.book.pool id).request_tag later _ _
          (on_book-Keeps blank capacity _ ex h.1)

    cancel_found-Holds :
        (request : Request) (msg : CancelOrderMessage) (now : ℕ) (ex : Exchange B) (o : Option ℕ)
        → Holds ex
        → Holds (cancel_found lib engine request msg now ex o)
    unfolding cancel_found send_reject_cancel enter_cancel
    cancel_found-Holds request msg now ex none h = reject-Holds _ ex h
    cancel_found-Holds request msg now ex (some id) h =
        flush-Holds _ (on_book-Keeps blank capacity _ _ (on_book-Keeps blank capacity _ ex h.1))

    dispatch-Ensures :
        (request : Request) (body : RequestBody) (a : Allotment) (now later : ℕ) (ex : Exchange B)
        → Holds ex
        → Ensures (dispatch lib engine request body a now later ex)
    unfolding dispatch handle_modify_order_request handle_cancel_order_request send_reject_modify
        send_reject_cancel
    dispatch-Ensures request (add_order msg) a now later ex h = new-Ensures request msg a later ex h
    dispatch-Ensures request (modify_order msg) a now later ex h =
        elim (Bool-cases (has_symbol request ex)) [
          | inl e ↦ rw e (modify_found-Ensures request msg now later ex _ h)
          | inr e ↦ rw e (reject-Holds _ ex h)
        ]
    dispatch-Ensures request (cancel_order msg) a now later ex h =
        elim (Bool-cases (has_symbol request ex)) [
          | inl e ↦ rw e (cancel_found-Holds request msg now ex _ h)
          | inr e ↦ rw e (reject-Holds _ ex h)
        ]
    dispatch-Ensures request (md_subscription channel) a now later ex h = h
    dispatch-Ensures request (md_unsubscription channel) a now later ex h = h

    pub process_request-Holds :
        (request : Request) (a : Allotment) (now later : ℕ) (ex ex' : Exchange B)
        → Holds ex
        → process_request lib engine request a now later ex ≡ some ex'
        → Holds ex'
    unfolding process_request
    process_request-Holds request a now later ex ex' h e =
        let ensured = dispatch-Ensures request request.body a now later ex h in rw e at ensured

module _ {B : Type 0} (blank : MdTrade) (capacity : ℕ) (lib : OrderBookL3 B)
    (engine : Engine B) where
  reject-CachesEmpty :
      (fill : OrderResponse → OrderResponse) (ex : Exchange B)
      → CachesEmpty ex
      → CachesEmpty (on_book (publish fill) ex)
  unfolding on_book publish
  reject-CachesEmpty fill ex h = h

  -- Every request, whatever it asks for and whatever the engine answers, leaves a settled exchange
  -- settled: no update waits in a cache, the tape's ids have no gap and the history is its newest part,
  -- and every identity is of one user.
  pub process_request-IsSettled :
      (request : Request) (a : Allotment) (now later : ℕ) (ex ex' : Exchange B)
      → IsSettled blank capacity ex
      → process_request lib engine request a now later ex ≡ some ex'
      → IsSettled blank capacity ex'
  process_request-IsSettled request a now later ex ex' h e =
      let (f, k) =
        process_request-Holds blank capacity CachesEmpty (λ ex' h'. h') reject-CachesEmpty lib
          engine request a now later ex ex' (h.flushed, h.keeps) e in
      record { flushed = f; keeps = k }
