-- ===== src/Lib.antt =====
-- slick-sim is an exchange simulator in C++: a venue mirrors a real market's order book from a feed,
-- lets clients rest orders of their own in it, and matches both against each other. This library
-- models the core of the program as functions by clauses, with the state passed explicitly, and proves
-- what the parts promise. Paths are from the repository's root.
--
-- The parts, and the files that model them:
--   * src/common: Common/Enums (order.hpp's enumerations, their codes and names), Common/Reasons
--     (messages.hpp's reject reasons and message kinds), Common/Order (Order, resetFillAccounting,
--     restsRemainder), Common/Messages (requests, OrderResponse, TradeSummaryInfo), Common/MarketData.
--   * src/utils: Utils/Price (isPriceBetter), Utils/RingBuffer (ring_buffer.hpp), Utils/Execution
--     (executeOrder, which books a fill on an order) and Utils/Execution/Accounting about runs of fills.
--   * src/order_book: OrderBook/State holds the state that one instrument's thread changes (the fields
--     of OrderBook, the caches of Symbol, the response queue); OrderBook/Operations has addOrder,
--     deleteOrder, modifyOrder and executeOrder. OrderBook/Levels, Effects and Observers are lemmas.
--   * src/matching_engine: MatchingEngine/Publish (publishOrderAck and the other reports), SelfMatch
--     (wouldSelfMatch, canFillCompletely, handleSelfMatch), Prepare (prepareOrder), Fill (fillResting,
--     recordTrade, cancelUnrestableRemainder), Fifo (matchOrder and matchFeed of the FIFO engine) and
--     ProRata (allocate of the pro-rata engine, with utils/math.hpp; its loops are in ProRata/Match).
--     Tape, Fills, Limit and the children of Fifo and ProRata are about them.
--   * src/exchange: Exchange/Symbol (addOrder, modifyOrder, cancelOrder), Exchange/TradedCredit
--     (creditTradedQty, takeTradedQty), Exchange/Reports (the reports and rejections of exchange.cpp),
--     Exchange/Session (the frames, the tape, the caches' flush and clientIdFor), Exchange/Requests
--     (processRequest and its handlers) and Exchange/MarketEvents (the order-by-order feed and
--     reconcilePhantomQty, over OrderBook/Mirror), whose child Matched says what a match and a
--     reconciliation do to the book in terms of the library's operations. An exchange has one instrument
--     here: its instruments share the queues and counters only, which each handler uses in the same way.
--     What sendOrderCancelPending asserts stands apart from the report, as order_cancel_pending_asserts: a
--     debug build stops where it does not hold, and a release build goes on.
--   * src/order_gateway: OrderGateway/ClOrdIdIndex, RetransmitRing, PendingResponses, OrderStore,
--     MessageParser and FixParser (the cut of parse_message, with QuickFIX as a parameter).
--   * src/venues/hyperliquid: Venues/Snapshot (split_book_snapshot), Venues/L2Diff (compute_l2_diff),
--     whose child Removal has the clients that apply a difference, and Venues/Hyperliquid (the messages,
--     price lists, frames and subscriptions of hyperliquid_exchange.cpp).
--   * src/venues/coinbase: Venues/Coinbase (the events of coinbase_exchange.hpp and the batches of
--     coinbase_feed_callbacks.cpp), with Dispatch (processSequencedEvents and dispatchEvent) and Feed (both
--     snapshots and handleMdSubscription). The venue's JSON and the live connections are left out.
-- A request reaches Exchange/Requests, which calls Exchange/Symbol, which calls the engine, which calls
-- the book; the engine's and the exchange's reports are what OrderGateway/OrderStore folds. A venue's
-- feed reaches the same book through Exchange/MarketEvents and the engine.
--
-- The order-by-order book that OrderBook extends belongs to the slick-orderbook library, which the build
-- fetches. OrderBook/L3 takes it as a parameter: a record of operations over any type of books, and a
-- record of laws that states the library's documented behaviour. Examples/Book has a book that keeps
-- them. The matching engine of a venue is an interface to Exchange/Symbol, which both engines fill.
--
-- Numbers. Prices, quantities, ids and times are natural numbers; what the source subtracts it never
-- subtracts below zero where a theorem is stated. The 128-bit product of a fill's value, the 64-bit
-- quotient of mul_div_floor and the 32-bit counters of fills, claims and sequence numbers keep their
-- wrap. NULL_PRICE is 2 ^ 63 - 1. A client id of -1 is `none`. A pointer to a pooled order is its id.
-- The response queue is a list, newest first, with what each recycled slot held before.
--
-- Loops. The `while` loops of the engine take fuel, one turn a unit, and answer `none` when it runs out.
-- A turn of the FIFO loop fills the order at the front of the best level or removes it, so as many turns
-- as orders rest, and two more, are enough. A turn of the pro-rata loop executes the allocation of a
-- level. The loops over a queue, a batch or a message are structural.
--
-- Not modelled: the double fields of an order and its edit history, wire layouts and the serialisation
-- of snapshots, the JSON parser, the fields of FIX messages, sockets and event loops, the venues' order
-- gateways and publishers but for what is named above, threads (each instrument's state is changed by
-- one thread), and logging.
pub mod Prelude
pub mod Common
pub mod Utils
pub mod OrderBook
pub mod MatchingEngine
pub mod Exchange
pub mod OrderGateway
pub mod Venues
pub mod Examples
