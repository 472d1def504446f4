-- ===== src/Venues/Hyperliquid/Waiting.antt =====
-- Who waits for an answer to a subscription.
use slick_sim.Prelude.{
  ℕ, ◌≡◌, refl, sym, ap, ◌∙◌, Bool, true, false, List, [], ◌∷◌, Option, none, some, ◌+◌, Bool-cases,
  inl, inr,
}
use slick_sim.OrderBook.L3.{OrderBookL3}
use slick_sim.Exchange.Symbol.{Engine}
use slick_sim.Exchange.Session.{Exchange}
use slick_sim.Venues.Hyperliquid.{
  L2BookEvent, snapshot, diff, WireTrade, HyperliquidChannel, Coin, on_hyperliquid_disconnected,
  finalize_l2_event, end_l2_event, end_trades, subscribe_live, handle_md_subscription,
  process_l2_book_event, process_trades_event,
}

module _ {B : Type 0} (lib : OrderBookL3 B) (engine : Engine B) where
  -- One step of an instrument of the live feed: a message, the loss of the connection, a subscription, or
  -- what a client's request does to the exchange.
  pub data Step (c c' : Coin B) : Type 0 where
    book_message :
        (ids : ℕ → ℕ → ℕ) (event_time : ℕ) (e : L2BookEvent)
        → process_l2_book_event lib engine ids event_time e c ≡ some c'
        → Step c c'
    trades_message :
        (ids : ℕ → ℕ) (ts : List WireTrade)
        → process_trades_event lib engine ids ts c ≡ some c'
        → Step c c'
    disconnected : c' ≡ on_hyperliquid_disconnected c → Step c c'
    subscribed :
        (channel : HyperliquidChannel)
        → c' ≡ handle_md_subscription lib true false channel c
        → Step c c'
    exchange_changes : (ex : Exchange B) → c' ≡ record c { ex = ex } → Step c c'

  pub data Reach (c : Coin B) : Coin B → Type 0 where
    here : Reach c c
    next : {mid to : Coin B} → Reach c mid → Step mid to → Reach c to

module _ {B : Type 0} (lib : OrderBookL3 B) where
  -- Whether trades wait, in a state that a message left.
  abbrev pending_or : Bool → Option (Coin B) → Bool
  pending_or other none = other
  pending_or other (some c) = c.trades_pending

  end_l2_event-pending :
      (event_time : ℕ) (bids asks : List ℕ) (c c' : Coin B) (o : Option (Exchange B))
      → end_l2_event lib event_time bids asks c o ≡ some c'
      → c'.trades_pending ≡ c.trades_pending
  unfolding end_l2_event finalize_l2_event
  end_l2_event-pending event_time bids asks c c' none h = cc
  end_l2_event-pending event_time bids asks c c' (some ex) h =
      ap (pending_or c.trades_pending) (sym h)

  end_trades-pending :
      (c c' : Coin B) (o : Option (Exchange B))
      → end_trades lib c o ≡ some c'
      → c'.trades_pending ≡ c.trades_pending
  unfolding end_trades
  end_trades-pending c c' none h = cc
  end_trades-pending c c' (some ex) h = ap (pending_or c.trades_pending) (sym h)

  subscribe_live-waits :
      (channel : HyperliquidChannel) (c : Coin B)
      → c.trades_pending ≡ true
      → (subscribe_live lib false channel c).trades_pending ≡ true
  unfolding subscribe_live
  subscribe_live-waits HyperliquidChannel.trades c h = simp h refl
  subscribe_live-waits HyperliquidChannel.l2_book c h = elim (Bool-cases c.l2_book_pending) [
    | inl p ↦ simp p h
    | inr p ↦ simp p h
  ]
  subscribe_live-waits HyperliquidChannel.l2 c h = elim (Bool-cases c.l2_pending) [
    | inl p ↦ simp p h
    | inr p ↦ simp p h
  ]

module _ {B : Type 0} (lib : OrderBookL3 B) (engine : Engine B) where
  event-pending :
      (ids : ℕ → ℕ → ℕ) (event_time : ℕ) (e : L2BookEvent) (c c' : Coin B)
      → process_l2_book_event lib engine ids event_time e c ≡ some c'
      → c'.trades_pending ≡ c.trades_pending
  unfolding process_l2_book_event
  event-pending ids event_time (snapshot bids asks) c c' h =
      end_l2_event-pending lib event_time _ _ c c' _ h
  event-pending ids event_time (diff rb ra cb ca) c c' h =
      end_l2_event-pending lib event_time _ _ c c' _ h

  trades-pending :
      (ids : ℕ → ℕ) (ts : List WireTrade) (c c' : Coin B)
      → process_trades_event lib engine ids ts c ≡ some c'
      → c'.trades_pending ≡ c.trades_pending
  unfolding process_trades_event
  trades-pending ids [] c c' h = ap (pending_or lib c.trades_pending) (sym h)
  trades-pending ids (t ∷ ts) c c' h = end_trades-pending lib c c' _ h

  Step-waits :
      {c c' : Coin B} → Step lib engine c c' → c.trades_pending ≡ true → c'.trades_pending ≡ true
  unfolding on_hyperliquid_disconnected handle_md_subscription
  Step-waits {c} {c'} (book_message ids event_time e h) w =
      event-pending ids event_time e c c' h ∙ w
  Step-waits {c} {c'} (trades_message ids ts h) w = trades-pending ids ts c c' h ∙ w
  Step-waits (disconnected is) w = rw is refl
  Step-waits {c} (subscribed channel is) w = rw is (
      subscribe_live-waits lib channel (record c { num_subscriptions = c.num_subscriptions + 1 }) w)
  Step-waits (exchange_changes ex is) w = rw is w

  Reach-waits :
      {c c' : Coin B} → c.trades_pending ≡ true → Reach lib engine c c' → c'.trades_pending ≡ true
  Reach-waits w here = w
  Reach-waits w (next r s) = Step-waits s (Reach-waits w r)

  -- After the connection was lost once, whatever messages come and whoever subscribes: a subscription to the
  -- trades of an instrument that the exchange knows gets no answer.
  pub handle_md_subscription-unanswered :
      (c c' : Coin B)
      → Reach lib engine (on_hyperliquid_disconnected c) c'
      → (handle_md_subscription lib true false HyperliquidChannel.trades c').ex ≡ c'.ex
  unfolding handle_md_subscription subscribe_live on_hyperliquid_disconnected
  handle_md_subscription-unanswered c c' r = let w = Reach-waits refl r in simp w refl
