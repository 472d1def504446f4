-- ===== src/Exchange/Session/Snapshot.antt =====
-- publishTradeSubscriptionResponse: the two blocks of a trade snapshot.
use mathlib.Core.List.{reverse-append}
use slick_sim.Prelude.{
  ℕ, zero, suc, ◌+◌, ◌-◌, ◌<◌, ◌≤◌, ◌≡◌, refl, sym, ap, ◌∙◌, Bool, not, List, [], ◌∷◌, ◌++◌,
  reverse, Option, none, some, arith, get_elem?, take, length, length-take, length-reverse, min,
  select,
}
use slick_sim.Common.MarketData.{MdTrade}
use slick_sim.Utils.RingBuffer.{RingBuffer, size, at_index}
use slick_sim.Utils.RingBuffer.Pushes.{pushed, at_index-pushed}
use slick_sim.Exchange.Session.{keep_trade, collect, reflected_in_book, snapshot_of}

module _ {ℓ} {A : Type ℓ} where
  take_next :
      (xs : List A) (c : ℕ) (x : A)
      → get_elem? xs c ≡ some x
      → take (suc c) xs ≡ take c xs ++ (x ∷ [])
  take_next [] c x h = cc
  take_next (y ∷ ys) zero x h = (let same : y ≡ x = cc in ap (λ z. z ∷ []) same)
  take_next (y ∷ ys) (suc c) x h = ap (λ zs. y ∷ zs) (take_next ys c x h)

  le_of_none : (xs : List A) (c : ℕ) → get_elem? xs c ≡ none → length xs ≤ c
  le_of_none [] c h = omega arith
  le_of_none (y ∷ ys) zero h = cc
  le_of_none (y ∷ ys) (suc c) h = omega (arith, le_of_none ys c h)

keep_next :
    (keep : MdTrade → Bool) (xs : List MdTrade) (c : ℕ) (o : Option MdTrade)
    → get_elem? xs c ≡ o
    → c < length xs
    → keep_trade keep o (select keep (reverse (take c xs)))
      ≡ select keep (reverse (take (suc c) xs))
unfolding keep_trade
keep_next keep xs c none e h = let far = le_of_none xs c e in absurd (omega arith)
keep_next keep xs c (some x) e h = sym (
    ap (λ zs. select keep (reverse zs)) (take_next xs c x e)
    ∙ ap (select keep) (reverse-append (take c xs) (x ∷ [])))

-- The last `count` positions of a ring that counts `xs` from its oldest item.
collect_last :
    (keep : MdTrade → Bool) (xs : List MdTrade) (r : RingBuffer MdTrade) (s count : ℕ)
    → ((i : ℕ) → i < s → at_index i r ≡ get_elem? xs (s - 1 - i))
    → s ≤ length xs
    → count ≤ s
    → collect keep count (s - count) r ≡ select keep (reverse (take count xs))
unfolding collect
collect_last keep xs r s zero at fits h = refl
collect_last keep xs r s (suc count) at fits h =
    let next : s - suc count + 1 ≡ s - count = omega arith in
    let here : s - 1 - (s - suc count) ≡ count = omega arith in
    let item = at (s - suc count) (omega arith) ∙ ap (get_elem? xs) here in
    let rest = collect_last keep xs r s count at fits (omega arith) in
    ap (λ o. keep_trade keep o (collect keep count (s - suc count + 1) r)) item
    ∙ ap (λ i. keep_trade keep (get_elem? xs count) (collect keep count i r)) next
    ∙ ap (keep_trade keep (get_elem? xs count)) rest
    ∙ keep_next keep xs count (get_elem? xs count) refl (omega arith)

length-select :
    (keep : MdTrade → Bool) (xs : List MdTrade)
    → length (select keep xs) + length (select (λ t. not (keep t)) xs) ≡ length xs
length-select keep [] = refl
length-select keep (x ∷ xs) = ground (arith, length-select keep xs)

-- For a history of pushed trades, the snapshot is the newest ones that the ring holds, one fewer than its
-- capacity: first those that the book reflects and then those that it does not, both oldest first, with
-- their numbers, which add up to all that it holds.
pub snapshot_of-pushed :
    (blank : MdTrade) (capacity book_time : ℕ) (xs : List MdTrade)
    → 1 < capacity
    → let held = reverse (take (min (length xs) (capacity - 1)) xs) in
      let settled = select (reflected_in_book book_time) held in
      let newer = select (λ t. not (reflected_in_book book_time t)) held in
      let s = snapshot_of book_time (pushed blank capacity xs) in
      (s.trades ≡ settled ++ newer)
      × (s.num_snapshot ≡ length settled)
      × (s.num_update ≡ length newer)
      × (s.num_snapshot + s.num_update ≡ min (length xs) (capacity - 1))
unfolding snapshot_of
snapshot_of-pushed blank capacity book_time xs two =
    let r = pushed blank capacity xs in
    let k = min (length xs) (capacity - 1) in
    let (size_is, _) = at_index-pushed blank capacity 0 xs two in
    let at : (i : ℕ) → i < size r → at_index i r ≡ get_elem? xs (size r - 1 - i) =
      λ i. (at_index-pushed blank capacity i xs two).1 in
    let block : (keep : MdTrade → Bool)
        → collect keep (size r) 0 r ≡ select keep (reverse (take k xs)) =
      λ keep.
        ap (λ i. collect keep (size r) i r) (omega arith)
        ∙ collect_last keep xs r (size r) (size r) at (omega arith) (omega arith)
        ∙ ap (λ n. select keep (reverse (take n xs))) size_is in
    let settled = block (reflected_in_book book_time) in
    let newer = block (λ t. not (reflected_in_book book_time t)) in
    let all = length-select (reflected_in_book book_time) (reverse (take k xs)) in
    let held = length-reverse (take k xs) in
    let whole = length-take k xs (omega arith) in
    let a = ap length settled in
    let b = ap length newer in
    (
      ap (λ zs. zs ++ collect (λ t. not (reflected_in_book book_time t)) (size r) 0 r) settled
          ∙ ap (λ zs. select (reflected_in_book book_time) (reverse (take k xs)) ++ zs) newer,
      a,
      b,
      omega arith,
    )
