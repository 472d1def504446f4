-- ===== src/OrderGateway/OrderStore/Projection.antt =====
-- OrderStore: an order is what its own reports say, and nothing else.
use native.Mathlib.Nat.{mod-lt, mod-add-mod, mod-eq_of_lt}
use slick_sim.Prelude.{
  ℕ, ◌+◌, ◌<◌, ◌%◌, ◌^◌, ◌≡◌, refl, sym, ap, ◌∙◌, String, false, List, [], ◌∷◌, Option, none, some,
  arith, if◌then◌else◌, ◌==◌, string_keyed, lookup, lookup-assign, Bool-cases, inl, inr,
}
use slick_sim.Common.Order.{Order}
use slick_sim.Common.Messages.{OrderResponse}
use slick_sim.OrderGateway.OrderStore.{
  OrderStore, no_orders, first_sight, copy_report, is_trade, copy_fill, copy_message, fold_report,
  apply_at, apply, drain, find,
}

-- What one report makes of the order that it names.
abbrev pub follow : OrderResponse → Option Order → Order
follow r none = fold_report r (first_sight r)
follow r (some o) = fold_report r o

-- The order of this id, from the reports that name it.
abbrev pub history : String → List OrderResponse → Option Order → Option Order
history id [] o = o
history id (r ∷ rs) o =
    if r.order_id == id then history id rs (some (follow r o)) else history id rs o

lookup-apply_at :
    (id : String) (r : OrderResponse) (st : OrderStore) (o : Option Order)
    → lookup r.order_id st.by_order_id ≡ o
    → lookup id (apply_at r o st).by_order_id
      ≡ (if r.order_id == id then some (follow r o) else lookup id st.by_order_id)
unfolding apply_at
lookup-apply_at id r st none e = lookup-assign r.order_id id _ st.by_order_id
lookup-apply_at id r st (some o) e = lookup-assign r.order_id id _ st.by_order_id

pub find-apply :
    (id : String) (r : OrderResponse) (st : OrderStore)
    → (id == "") ≡ false
    → find id (apply r st) ≡ (if r.order_id == id then some (follow r (find id st)) else find id st)
unfolding apply find
find-apply id r st named = elim (Bool-cases (r.order_id == "")) [
  | inl blank ↦
      (let other : (r.order_id == id) ≡ false = elim (Bool-cases (r.order_id == id)) [
        | inl own ↦
            (let same = (string_keyed.same_iff r.order_id id).0 own in
              let unnamed = sym (ap (λ x. x == "") same) ∙ blank in ground (arith, unnamed))
        | inr other ↦ other
      ] in
        rw (blank, other) refl)
  | inr full ↦ rw full (
      lookup-apply_at id r st (lookup r.order_id st.by_order_id) refl
      ∙ (elim (Bool-cases (r.order_id == id)) [
        | inl own ↦
            (let same = (string_keyed.same_iff r.order_id id).0 own in
              rw own (ap (λ x. some (follow r (lookup x st.by_order_id))) same))
        | inr other ↦ rw other refl
      ]))
]

-- What a gateway finds under an id, after any reports on an empty store, is what the reports that name
-- the id make of it, in their order: no report about another order, and none without an id, changes it.
pub find-drain :
    (id : String) (rs : List OrderResponse) (st : OrderStore)
    → (id == "") ≡ false
    → find id (drain rs st) ≡ history id rs (find id st)
unfolding drain
find-drain id [] st named = refl
find-drain id (r ∷ rs) st named =
    find-drain id rs (apply r st) named
    ∙ ap (history id rs) (find-apply id r st named)
    ∙ (elim (Bool-cases (r.order_id == id)) [ inl own ↦ rw own refl | inr other ↦ rw other refl ])

abbrev pub fills : Option Order → ℕ
fills none = 0
fills (some o) = o.num_fills

abbrev pub trades : String → List OrderResponse → ℕ
trades id [] = 0
trades id (r ∷ rs) = (if r.order_id == id then (if is_trade r then 1 else 0) else 0) + trades id rs

copy_message-fills : (r : OrderResponse) (o : Order) → (copy_message r o).num_fills ≡ o.num_fills
unfolding copy_message
copy_message-fills r o = ground arith

fills-fold_report :
    (r : OrderResponse) (o : Order)
    → o.num_fills < 2 ^ 32
    → (fold_report r o).num_fills ≡ (o.num_fills + (if is_trade r then 1 else 0)) % 2 ^ 32
unfolding fold_report copy_fill copy_report
fills-fold_report r o h =
    let small = mod-eq_of_lt {n = o.num_fills} {m = 2 ^ 32} h in
    let same = copy_message-fills r (copy_fill r (copy_report r o)) in
    same ∙ (elim (Bool-cases (is_trade r)) [
      | inl e ↦ rw e refl
      | inr e ↦ rw e (sym (ap (λ k. k % 2 ^ 32) (omega arith) ∙ small))
    ])

fills-follow :
    (r : OrderResponse) (o : Option Order)
    → fills o < 2 ^ 32
    → (follow r o).num_fills ≡ (fills o + (if is_trade r then 1 else 0)) % 2 ^ 32
unfolding first_sight
fills-follow r none h = fills-fold_report r (first_sight r) (omega arith)
fills-follow r (some o) h = fills-fold_report r o h

fills-history :
    (id : String) (rs : List OrderResponse) (o : Option Order)
    → fills o < 2 ^ 32
    → fills (history id rs o) ≡ (fills o + trades id rs) % 2 ^ 32
fills-history id [] o h =
    sym (ap (λ k. k % 2 ^ 32) (omega arith) ∙ mod-eq_of_lt {n = fills o} {m = 2 ^ 32} h)
fills-history id (r ∷ rs) o h = elim (Bool-cases (r.order_id == id)) [
  | inl own ↦
      (let one : ℕ = if is_trade r then 1 else 0 in
        let now = fills-follow r o h in
        let room = mod-lt (fills o + one) {m = 2 ^ 32} (omega arith) in
        let more = fills-history id rs (some (follow r o)) (rw now room) in
        let split = mod-add-mod (fills o + one) (2 ^ 32) (trades id rs) in
        rw own (
          more
          ∙ ap (λ k. (k + trades id rs) % 2 ^ 32) now
          ∙ split
          ∙ ap (λ k. k % 2 ^ 32) (omega arith)))
  | inr other ↦
      (let more = fills-history id rs o h in rw other (more ∙ ap (λ k. k % 2 ^ 32) (omega arith)))
]

-- The fill count of an order in an empty store is the number of TRADE reports that named it, at 32
-- bits: no report is counted twice or for another order.
pub fills-drain :
    (id : String) (rs : List OrderResponse)
    → (id == "") ≡ false
    → fills (find id (drain rs no_orders)) ≡ trades id rs % 2 ^ 32
unfolding find lookup
fills-drain id rs named =
    ap fills (find-drain id rs no_orders named)
    ∙ fills-history id rs none (omega arith)
    ∙ ap (λ k. k % 2 ^ 32) (omega arith)
