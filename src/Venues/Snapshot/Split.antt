-- ===== src/Venues/Snapshot/Split.antt =====
-- The two sides of a split snapshot.
use slick_sim.Prelude.{
  ℕ, zero, suc, ◌+◌, ◌≡◌, ◌≤◌, refl, sym, ap, ◌∙◌, arith, List, [], ◌∷◌, ◌++◌, append_assoc,
  append-nil, some, get_elem?, min, length, length-append, take, map,
}
use slick_sim.Common.MarketData.{MdLevel}
use slick_sim.Venues.Snapshot.{
  l2_publish_depth, Row, SnapshotSide, row, price_qty, emit, emit_from, split_book_snapshot,
}

get_elem?-length {ℓ} :
    {A : Type ℓ} (ps : List A) (x : A) (xs : List A)
    → get_elem? (ps ++ (x ∷ xs)) (length ps) ≡ some x
get_elem?-length [] x xs = refl
get_elem?-length (p ∷ ps) x xs = get_elem?-length ps x xs

-- A side with `ls` behind its levels.
abbrev and_then : SnapshotSide → List MdLevel → SnapshotSide
and_then s ls = record { rows = s.rows ++ map row ls; baseline = s.baseline ++ map price_qty ls }

abbrev side : List Row → List (ℕ × ℕ) → SnapshotSide
side r b = record { rows = r; baseline = b }

sides :
    {r : List Row} {r' : List Row} {b : List (ℕ × ℕ)} {b' : List (ℕ × ℕ)}
    → r ≡ r'
    → b ≡ b'
    → side r b ≡ side r' b'
sides {r = r} {b' = b'} e f = ap (side r) f ∙ ap (λ x. side x b') e

emit-and_then :
    (s : SnapshotSide) (l : MdLevel) (ls : List MdLevel)
    → and_then (emit (some l) s) ls ≡ and_then s (l ∷ ls)
emit-and_then s l ls =
    sides (append_assoc s.rows (row l ∷ []) (map row ls))
      (append_assoc s.baseline (price_qty l ∷ []) (map price_qty ls))

emit_from-length :
    (ps xs : List MdLevel) (count : ℕ) (s : SnapshotSide)
    → count ≤ length xs
    → emit_from (ps ++ xs) (length ps) count s ≡ and_then s (take count xs)
unfolding emit_from
emit_from-length ps xs zero s h = sides (sym (append-nil s.rows)) (sym (append-nil s.baseline))
emit_from-length ps [] (suc count) s h = let no : ⊥ = omega arith in elim no [ ]
emit_from-length ps (x ∷ xs) (suc count) s h =
    let longer : length (ps ++ (x ∷ [])) ≡ length ps + 1 = length-append ps (x ∷ []) in
    let rest = emit_from-length (ps ++ (x ∷ [])) xs count (emit (some x) s) (omega arith) in
    ap (λ l. emit_from (ps ++ (x ∷ xs)) (length ps + 1) count (emit l s)) (get_elem?-length ps x xs)
    ∙ ap (λ k. emit_from (ps ++ (x ∷ xs)) k count (emit (some x) s)) (sym longer)
    ∙ ap (λ ls. emit_from ls (length (ps ++ (x ∷ []))) count (emit (some x) s))
        (sym (append_assoc ps (x ∷ []) xs))
    ∙ rest
    ∙ emit-and_then s x (take count xs)

take-min : (k : ℕ) (xs ys : List MdLevel) → take (min (length xs) k) (xs ++ ys) ≡ take k xs
take-min zero xs ys = let e : min (length xs) 0 ≡ 0 = omega arith in ap (λ c. take c (xs ++ ys)) e
take-min (suc k) [] ys = let e : min 0 (suc k) ≡ 0 = omega arith in ap (λ c. take c ys) e
take-min (suc k) (x ∷ xs) ys =
    let e : min (suc (length xs)) (suc k) ≡ suc (min (length xs) k) = omega arith in
    ap (λ c. take c (x ∷ (xs ++ ys))) e ∙ ap (λ ls. x ∷ ls) (take-min k xs ys)

-- What is published of a side with these levels.
abbrev pub published : List MdLevel → SnapshotSide
published ls =
    let best = take l2_publish_depth ls in
    record { rows = map row best; baseline = map price_qty best }

-- From a frame that carries bids and then asks, with their numbers, split_book_snapshot publishes the
-- twenty first bids and the twenty first asks, and the next difference starts from the same levels.
pub split_book_snapshot_lem :
    (bids asks : List MdLevel)
    → split_book_snapshot (bids ++ asks) (length bids) (length asks)
      ≡ (published bids, published asks)
unfolding split_book_snapshot
split_book_snapshot_lem bids asks =
    let cleared : SnapshotSide = record { rows = []; baseline = [] } in
    let b = min (length bids) l2_publish_depth in
    let a = min (length asks) l2_publish_depth in
    let fits : b ≤ length (bids ++ asks) = omega (arith, length-append bids asks) in
    let first =
      emit_from-length [] (bids ++ asks) b cleared fits
      ∙ ap (and_then cleared) (take-min l2_publish_depth bids asks) in
    let second =
      emit_from-length bids asks a cleared (omega arith)
      ∙ ap (and_then cleared)
          (ap (take a) (sym (append-nil asks)) ∙ take-min l2_publish_depth asks []) in
    ap (λ s. (s, emit_from (bids ++ asks) (length bids) a cleared)) first
    ∙ ap (λ s. (published bids, s)) second
