-- ===== src/Venues/Coinbase/Feed/TradeIds.antt =====
-- The ids of the trades that a snapshot reports, and of those that the exchange makes afterwards.
use slick_sim.Prelude.{
  ℕ, ◌≡◌, ◌<◌, ◌≤◌, refl, true, List, [], ◌∷◌, reverse, reverse-reverse, All-reverse, Option, none,
  some, arith, leb, All, Bool-cases, inl, inr,
}
use slick_sim.Exchange.Session.{Exchange, publish_frame, publish_trade_subscription_response}
use slick_sim.Venues.Coinbase.Feed.{
  Feed, TradePrint, print_id, record_print, record_prints, on_exchange, on_market_trades_snapshot,
}

abbrev pub IsBelow : ℕ → TradePrint → Type 0
IsBelow next t = (id : ℕ) → t.trade_id ≡ some id → id < next

print_id_lem :
    (trade_id : Option ℕ) (next : ℕ)
    → (next ≤ (print_id trade_id next).1)
      × ((id : ℕ) → trade_id ≡ some id → id < (print_id trade_id next).1)
unfolding print_id
print_id_lem none next = (omega arith, λ id is. cc)
print_id_lem (some i) next = elim (Bool-cases (leb next i)) [
  | inl l ↦ rw l (ground arith, λ id is. (let same : i ≡ id = cc in omega (arith, same)))
  | inr l ↦ rw l (omega arith, λ id is. (let same : i ≡ id = cc in ground (arith, same)))
]

module _ {B : Type 0} where
  record_prints-next :
      (seq_num : ℕ) (ts : List TradePrint) (ex : Exchange B)
      → (ex.next_trade_id ≤ (record_prints seq_num ts ex).next_trade_id)
        × All (IsBelow (record_prints seq_num ts ex).next_trade_id) ts
  unfolding record_prints record_print
  record_prints-next seq_num [] ex = (omega arith, tt)
  record_prints-next seq_num (t ∷ ts) ex =
      let (more, below) = print_id_lem t.trade_id ex.next_trade_id in
      let (more', all) = record_prints-next seq_num ts (record_print seq_num t ex) in
      (omega arith, (λ id is. (let b = below id is in omega arith), all))

  snapshot-next :
      (channel seq_num : ℕ) (ts : List TradePrint) (w : Feed B)
      → w.trades_pending ≡ true
      → (on_market_trades_snapshot channel seq_num ts w).live.ex.next_trade_id
        ≡ (record_prints seq_num (reverse ts) w.live.ex).next_trade_id
  unfolding on_market_trades_snapshot on_exchange publish_trade_subscription_response publish_frame
      record_prints
  snapshot-next channel seq_num [] w pending = refl
  snapshot-next channel seq_num (t ∷ ts) w pending = simp pending refl

  -- When a trade snapshot is awaited, the next id of the exchange is above every id that it reports, and
  -- no lower than before.
  pub on_market_trades_snapshot-IsBelow :
      (channel seq_num : ℕ) (ts : List TradePrint) (w : Feed B)
      → w.trades_pending ≡ true
      → let next = (on_market_trades_snapshot channel seq_num ts w).live.ex.next_trade_id in
        (w.live.ex.next_trade_id ≤ next) × All (IsBelow next) ts
  on_market_trades_snapshot-IsBelow channel seq_num ts w pending =
      let (more, below) = record_prints-next seq_num (reverse ts) w.live.ex in
      let next = (record_prints seq_num (reverse ts) w.live.ex).next_trade_id in
      rw (snapshot-next channel seq_num ts w pending)
        (more, rw (reverse-reverse ts) at (All-reverse (IsBelow next) (reverse ts) below))
