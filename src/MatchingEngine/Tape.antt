-- ===== src/MatchingEngine/Tape.antt =====
-- The trade summaries of a match: what `recordTrade` keeps true of them.
use slick_sim.Prelude.{
  ℕ, ◌+◌, ◌≤◌, ◌≡◌, ◌≢◌, refl, List, [], ◌∷◌, ◌++◌, Option, none, some, arith, eqb, eqb_iff, All,
  length, length-append, Bool-cases, inl, inr,
}
use slick_sim.Common.Enums.{Side}
use slick_sim.Common.Order.{null_price}
use slick_sim.Common.Messages.{Trade, TradeSummaryInfo}
use slick_sim.MatchingEngine.Fill.{MatchContext, add_leg, grow_summary, record_trade, phantom}

abbrev pub legs : List Trade → ℕ
legs [] = 0
legs (t ∷ ts) = t.qty + legs ts

-- The quantity of all summaries.
abbrev pub traded : List TradeSummaryInfo → ℕ
traded [] = 0
traded (s ∷ ss) = s.qty + traded ss

-- The first leg is the aggressor's, with the whole quantity; the others add up to it.
abbrev pub Balanced : ℕ → List Trade → Type 0
Balanced q [] = ⊥
Balanced q (t ∷ ts) = (t.qty ≡ q) × (legs ts ≡ q)

pub record IsSummary (s : TradeSummaryInfo) : Type 0 where
  pub counted : s.num_orders ≡ length s.trades
  pub balanced : Balanced s.qty s.trades
  pub mirrored : s.phantom_qty ≤ s.qty

-- `last_fill_price` is the last summary's price, and no price before there is one.
abbrev pub IsLast : ℕ → List TradeSummaryInfo → Type 0
IsLast last [] = last ≡ null_price
IsLast last (s ∷ ss) = last ≡ s.price

abbrev pub PricedTape : (ℕ → Type 0) → List TradeSummaryInfo → Type 0
PricedTape P = All λ s. P s.price

pub record IsTape (P : ℕ → Type 0) {B : Type 0} (c : MatchContext B) : Type 0 where
  pub summaries : All IsSummary c.summaries
  pub last : IsLast c.last_fill_price c.summaries
  pub priced : PricedTape P c.summaries

legs-snoc :
    (id q : ℕ) (ts : List Trade)
    → legs (ts ++ (record { order_id = id; qty = q } ∷ [])) ≡ legs ts + q
legs-snoc id q [] = omega arith
legs-snoc id q (t ∷ ts) = omega (arith, legs-snoc id q ts)

add_leg_lem :
    (id e q : ℕ) (ts : List Trade)
    → Balanced q ts
    → Balanced (q + e) (add_leg id e ts) × (length (add_leg id e ts) ≡ length ts + 1)
unfolding add_leg
add_leg_lem id e q [] b = absurd b
add_leg_lem id e q (t ∷ ts) (b, c) =
    let leg : List Trade = record { order_id = id; qty = e } ∷ [] in
    let more = legs-snoc id e ts in
    let longer = length-append ts leg in ((omega arith, omega arith), omega arith)

grow_summary_lem :
    (P : ℕ → Type 0) (id e ph last : ℕ) (ss : List TradeSummaryInfo)
    → last ≢ null_price
    → ph ≤ e
    → IsLast last ss
    → All IsSummary ss
    → PricedTape P ss
    → let after = grow_summary id e ph ss in
      IsLast last after × All IsSummary after × PricedTape P after × (traded after ≡ traded ss + e)
unfolding grow_summary
grow_summary_lem P id e ph last [] ne le l a p = absurd (ne l)
grow_summary_lem P id e ph last (s ∷ ss) ne le l (a, as') (p, ps) =
    let (b, n) = add_leg_lem id e s.qty s.trades a.balanced in
    let m = a.mirrored in
    let k = a.counted in
    (
      l,
      (record { counted = omega arith; balanced = b; mirrored = omega arith }, as'),
      (p, ps),
      omega arith,
    )

pub record_trade_lem :
    (P : ℕ → Type 0) {B : Type 0} (s : Side) (ts a b price e ph : ℕ) (c : MatchContext B)
    → price ≢ null_price
    → ph ≤ e
    → P price
    → IsTape P c
    → let after = record_trade s ts a b price e ph c in
      IsTape P after × (traded after.summaries ≡ traded c.summaries + e)
unfolding record_trade
record_trade_lem P s ts a b price e ph c ne le p t =
    elim (Bool-cases (eqb c.last_fill_price price)) [
      | inl same ↦
          let q : c.last_fill_price ≡ price = (eqb_iff _ _).0 same in
          let (l, ss, ps, sum') =
            grow_summary_lem P b e ph c.last_fill_price c.summaries (λ z. ne (cc)) le t.last
              t.summaries t.priced in
          rw same (record { summaries = ss; last = l; priced = ps }, sum')
      | inr new ↦ rw new (
        record {
          summaries = (
            record { counted = refl; balanced = (refl, omega arith); mirrored = le },
            t.summaries,
          );
          last = refl;
          priced = (p, t.priced);
        },
        omega arith,
      )
    ]

-- Recording touches no order and not the book.
pub record_trade_keeps :
    {B : Type 0} (s : Side) (ts a b price e ph j : ℕ) (c : MatchContext B)
    → let after = record_trade s ts a b price e ph c in
      (after.st.pool j ≡ c.st.pool j) × (after.st.l3 ≡ c.st.l3)
unfolding record_trade
record_trade_keeps s ts a b price e ph j c = ground arith

pub phantom-le : (o : Option ℕ) (q : ℕ) → phantom o q ≤ q
phantom-le none q = omega arith
phantom-le (some id) q = omega arith
