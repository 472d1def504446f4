-- ===== src/Exchange/TradedCredit/Refinement.antt =====
-- The credits against a plain bag of the prints: a level update is offset by exactly the prints at
-- its side and price that no update so far reflects.
use slick_sim.Prelude.{
  ℕ, ◌+◌, ◌≡◌, refl, sym, ap, ◌∙◌, Bool, false, not, ◌&&◌, List, [], ◌∷◌, Option, none, some, arith,
  eqb, ltb, leb, if◌then◌else◌, lookup, assign, erase, nat_keyed, lookup-assign, lookup-erase,
  Bool-cases, inl, inr, eqb_refl,
}
use slick_sim.Common.Enums.{Side, side_code}
use slick_sim.Exchange.TradedCredit.{
  TradedCredit, TradedCredits, no_credits, add_credit, or_empty, credits_at, credit_by,
  credit_traded_qty, resolve, keep_credits, take_found, take_by, take_traded_qty,
}

-- What the tape and the level updates bring.
pub data Happening : Type 0 where
  print : Side → (price phantom_consumed event_time : ℕ) → Happening
  level_update : Side → (price as_of : ℕ) → Happening

-- The offsets that the level updates get.
unfoldable pub offsets : List Happening → TradedCredits → List ℕ
offsets [] c = []
offsets (print side price q t ∷ hs) c = offsets hs (credit_traded_qty side price q t c)
offsets (level_update side price as_of ∷ hs) c =
    (take_traded_qty side price as_of c).0 ∷ offsets hs (take_traded_qty side price as_of c).1

pub record Print : Type 0 where
  pub side : Side
  pub price : ℕ
  pub qty : ℕ
  pub event_time : ℕ

abbrev pub is_at : Side → ℕ → Print → Bool
is_at side price x = eqb (side_code x.side) (side_code side) && eqb x.price price

-- The quantity of the prints at this side and price after `as_of`.
abbrev pub pending : Side → (price as_of : ℕ) → List Print → ℕ
pending side price as_of [] = 0
pending side price as_of (x ∷ xs) =
    (if is_at side price x && ltb as_of x.event_time then x.qty else 0)
    + pending side price as_of xs

-- The bag without the prints that an update reflects.
abbrev pub unsettled : Side → (price as_of : ℕ) → List Print → List Print
unsettled side price as_of [] = []
unsettled side price as_of (x ∷ xs) =
    if is_at side price x && not (ltb as_of x.event_time)
    then unsettled side price as_of xs
    else (x ∷ unsettled side price as_of xs)

-- The specification. The book has no liquidity on an unknown side.
abbrev pub due : Side → (price as_of : ℕ) → List Print → ℕ
due Side.buy price as_of bag = pending Side.buy price as_of bag
due Side.sell price as_of bag = pending Side.sell price as_of bag
due Side.unknown_side price as_of bag = 0

unfoldable pub expected : List Happening → List Print → List ℕ
expected [] bag = []
expected (print side price q t ∷ hs) bag =
    expected hs (record { side = side; price = price; qty = q; event_time = t } ∷ bag)
expected (level_update side price as_of ∷ hs) bag =
    due side price as_of bag ∷ expected hs (unsettled side price as_of bag)

abbrev late : ℕ → List TradedCredit → ℕ
late t [] = 0
late t (c ∷ cs) = (if ltb t c.event_time then c.qty else 0) + late t cs

abbrev later : ℕ → ℕ → ℕ
later t as_of = if ltb t as_of then as_of else t

late-add_credit :
    (t q time : ℕ) (cs : List TradedCredit)
    → late t (add_credit q time cs) ≡ late t cs + (if ltb t time then q else 0)
unfolding add_credit
late-add_credit t q time [] = omega arith
late-add_credit t q time (c ∷ cs) =
    let more = late-add_credit t q time cs in
    elim (Bool-cases (eqb c.event_time time)) [
      | inl same ↦ rw same (ground arith)
      | inr other ↦ rw other (ground (arith, more))
    ]

late-resolve :
    (t as_of : ℕ) (cs : List TradedCredit)
    → ((resolve as_of cs).0 ≡ late as_of cs)
      × (late t (resolve as_of cs).1 ≡ late (later t as_of) cs)
unfolding resolve
late-resolve t as_of [] = (refl, refl)
late-resolve t as_of (c ∷ cs) =
    let (now, after) = late-resolve t as_of cs in
    elim (Bool-cases (ltb as_of c.event_time)) [
      | inl e ↦ rw e (omega arith, ground (arith, after))
      | inr e ↦ rw e (omega arith, ground (arith, after))
    ]

credits_at-assign :
    (price p : ℕ) (cs : List TradedCredit) (m : List (ℕ × List TradedCredit))
    → credits_at p (assign price cs m) ≡ (if eqb price p then cs else credits_at p m)
unfolding credits_at
credits_at-assign price p cs m =
    ap or_empty (lookup-assign price p cs m)
    ∙ (elim (Bool-cases (eqb price p)) [ inl e ↦ rw e refl | inr e ↦ rw e refl ])

credits_at-erase :
    (price p : ℕ) (m : List (ℕ × List TradedCredit))
    → credits_at p (erase price m) ≡ (if eqb price p then [] else credits_at p m)
unfolding credits_at
credits_at-erase price p m =
    ap or_empty (lookup-erase price p m)
    ∙ (elim (Bool-cases (eqb price p)) [ inl e ↦ rw e refl | inr e ↦ rw e refl ])

credits_at-found :
    (price : ℕ) (m : List (ℕ × List TradedCredit)) (cs : List TradedCredit)
    → lookup price m ≡ some cs
    → credits_at price m ≡ cs
unfolding credits_at
credits_at-found price m cs e = ap or_empty e

credits_at-missing :
    (price : ℕ) (m : List (ℕ × List TradedCredit)) → lookup price m ≡ none → credits_at price m ≡ []
unfolding credits_at
credits_at-missing price m e = ap or_empty e

credits_at-keep_credits :
    (price p : ℕ) (cs : List TradedCredit) (m : List (ℕ × List TradedCredit))
    → credits_at p (keep_credits price cs m) ≡ (if eqb price p then cs else credits_at p m)
unfolding keep_credits
credits_at-keep_credits price p [] m = credits_at-erase price p m
credits_at-keep_credits price p (c ∷ cs) m = credits_at-assign price p (c ∷ cs) m

late-credit_by :
    (p t price q time : ℕ) (m : List (ℕ × List TradedCredit))
    → late t (credits_at p (credit_by price q time m))
      ≡ late t (credits_at p m) + (if eqb price p && ltb t time then q else 0)
unfolding credit_by
late-credit_by p t price q time m = elim (Bool-cases (leb q 0)) [
  | inl nothing ↦ rw nothing (ground arith)
  | inr some_qty ↦
      rw (some_qty, credits_at-assign price p (add_credit q time (credits_at price m)) m)
        (elim (Bool-cases (eqb price p)) [
          | inl e ↦
              (let same : price ≡ p = ground arith in
                rw (e, same) (late-add_credit t q time (credits_at p m)))
          | inr e ↦ rw e (omega arith)
        ])
]

late-take_found :
    (p t price as_of : ℕ) (m : List (ℕ × List TradedCredit)) (o : Option (List TradedCredit))
    → lookup price m ≡ o
    → ((take_found price as_of m o).0 ≡ late as_of (credits_at price m))
      × (late t (credits_at p (take_found price as_of m o).1) ≡ (
          if eqb price p then late (later t as_of) (credits_at p m) else late t (credits_at p m)))
unfolding take_found
late-take_found p t price as_of m none f =
    let empty = credits_at-missing price m f in
    (
      rw empty refl,
      elim (Bool-cases (eqb price p)) [
        | inl e ↦ (let same : price ≡ p = ground arith in rw (e, sym same, empty) refl)
        | inr e ↦ rw e refl
      ],
    )
late-take_found p t price as_of m (some cs) f =
    let found = credits_at-found price m cs f in
    let (now, after) = late-resolve t as_of cs in
    (
      rw found now,
      rw (credits_at-keep_credits price p (resolve as_of cs).1 m) (elim (Bool-cases (eqb price p)) [
        | inl e ↦ (let same : price ≡ p = ground arith in rw (e, sym same, found) after)
        | inr e ↦ rw e refl
      ]),
    )

pending-unsettled :
    (s s0 : Side) (p t price as_of : ℕ) (bag : List Print)
    → pending s p t (unsettled s0 price as_of bag) ≡ (
        if eqb (side_code s0) (side_code s) && eqb price p
        then pending s p (later t as_of) bag
        else pending s p t bag)
pending-unsettled s s0 p t price as_of [] = ground arith
pending-unsettled s s0 p t price as_of (x ∷ xs) =
    let more = pending-unsettled s s0 p t price as_of xs in
    elim (Bool-cases (is_at s0 price x && not (ltb as_of x.event_time))) [
      | inl e ↦ rw e (ground (arith, more))
      | inr e ↦ rw e (ground (arith, more))
    ]

-- The credits of a side hold what is pending in the bag.
abbrev Holds : Side → List (ℕ × List TradedCredit) → List Print → Type 0
Holds s m bag = (p t : ℕ) → late t (credits_at p m) ≡ pending s p t bag

Holds-credit_by :
    (s : Side) (price q time : ℕ) (m : List (ℕ × List TradedCredit)) (bag : List Print)
    → Holds s m bag
    → Holds s
        (credit_by price q time m)
        (record { side = s; price = price; qty = q; event_time = time } ∷ bag)
Holds-credit_by s price q time m bag h p t =
    let same = h p t in
    let more = late-credit_by p t price q time m in
    rw (eqb_refl (side_code s)) (ground (arith, same, more))

Holds-other :
    (s s0 : Side) (price q time : ℕ) (m : List (ℕ × List TradedCredit)) (bag : List Print)
    → eqb (side_code s0) (side_code s) ≡ false
    → Holds s m bag
    → Holds s m (record { side = s0; price = price; qty = q; event_time = time } ∷ bag)
Holds-other s s0 price q time m bag other h p t = rw other (h p t ∙ omega arith)

Holds-take_by :
    (s : Side) (price as_of : ℕ) (m : List (ℕ × List TradedCredit)) (bag : List Print)
    → Holds s m bag
    → ((take_by price as_of m).0 ≡ pending s price as_of bag)
      × Holds s (take_by price as_of m).1 (unsettled s price as_of bag)
unfolding take_by
Holds-take_by s price as_of m bag h = (
  (late-take_found price as_of price as_of m (lookup price m) refl).0 ∙ h price as_of,
  λ p t.
      (let taken = (late-take_found p t price as_of m (lookup price m) refl).1 in
        let settled = pending-unsettled s s p t price as_of bag in
        let now = h p t in
        let then_on = h p (later t as_of) in
        ground (arith, taken, settled, now, then_on, eqb_refl (side_code s))),
)

Holds-unsettled_other :
    (s s0 : Side) (price as_of : ℕ) (m : List (ℕ × List TradedCredit)) (bag : List Print)
    → eqb (side_code s0) (side_code s) ≡ false
    → Holds s m bag
    → Holds s m (unsettled s0 price as_of bag)
Holds-unsettled_other s s0 price as_of m bag other h p t =
    let settled = pending-unsettled s s0 p t price as_of bag in h p t ∙ sym (rw other at settled)

buy_is :
    (eqb (side_code Side.buy) (side_code Side.sell) ≡ false)
    × (eqb (side_code Side.sell) (side_code Side.buy) ≡ false)
unfolding side_code
buy_is = (refl, refl)

unknown_is :
    (eqb (side_code Side.unknown_side) (side_code Side.sell) ≡ false)
    × (eqb (side_code Side.unknown_side) (side_code Side.buy) ≡ false)
unfolding side_code
unknown_is = (refl, refl)

offsets-Holds :
    (hs : List Happening) (c : TradedCredits) (bag : List Print)
    → Holds Side.buy c.buy bag
    → Holds Side.sell c.sell bag
    → offsets hs c ≡ expected hs bag
unfolding offsets expected credit_traded_qty take_traded_qty
offsets-Holds [] c bag b s = refl
offsets-Holds (print Side.buy price q t ∷ hs) c bag b s =
    offsets-Holds hs _ _ (Holds-credit_by Side.buy price q t c.buy bag b)
      (Holds-other Side.sell Side.buy price q t c.sell bag buy_is.0 s)
offsets-Holds (print Side.sell price q t ∷ hs) c bag b s =
    offsets-Holds hs _ _ (Holds-other Side.buy Side.sell price q t c.buy bag buy_is.1 b)
      (Holds-credit_by Side.sell price q t c.sell bag s)
offsets-Holds (print Side.unknown_side price q t ∷ hs) c bag b s =
    offsets-Holds hs c _ (Holds-other Side.buy Side.unknown_side price q t c.buy bag unknown_is.1 b)
      (Holds-other Side.sell Side.unknown_side price q t c.sell bag unknown_is.0 s)
offsets-Holds (level_update Side.buy price as_of ∷ hs) c bag b s =
    let (now, left) = Holds-take_by Side.buy price as_of c.buy bag b in
    let rest =
      offsets-Holds hs (record c { buy = (take_by price as_of c.buy).1 })
        (unsettled Side.buy price as_of bag) left
        (Holds-unsettled_other Side.sell Side.buy price as_of c.sell bag buy_is.0 s) in
    cc (now, rest)
offsets-Holds (level_update Side.sell price as_of ∷ hs) c bag b s =
    let (now, left) = Holds-take_by Side.sell price as_of c.sell bag s in
    let rest =
      offsets-Holds hs (record c { sell = (take_by price as_of c.sell).1 })
        (unsettled Side.sell price as_of bag)
        (Holds-unsettled_other Side.buy Side.sell price as_of c.buy bag buy_is.1 b) left in
    cc (now, rest)
offsets-Holds (level_update Side.unknown_side price as_of ∷ hs) c bag b s =
    let rest =
      offsets-Holds hs c (unsettled Side.unknown_side price as_of bag)
        (Holds-unsettled_other Side.buy Side.unknown_side price as_of c.buy bag unknown_is.1 b)
        (Holds-unsettled_other Side.sell Side.unknown_side price as_of c.sell bag unknown_is.0 s) in
    cc rest

-- From no credits, and for any sequence of trade prints and level updates, each update is offset by
-- the total of the prints at its own side and price that are later than it and than every update of
-- that side and price since the print. An update of an unknown side is offset by nothing.
pub offsets-no_credits : (hs : List Happening) → offsets hs no_credits ≡ expected hs []
unfolding credits_at lookup
offsets-no_credits hs = offsets-Holds hs no_credits [] (λ p t. refl) λ p t. refl
