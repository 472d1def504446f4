-- ===== src/Exchange/Symbol/Cancel.antt =====
-- Symbol::cancelOrder: what a cancellation leaves of an order that rests.
use slick_sim.Prelude.{
  ◌≡◌, refl, ap, ◌∙◌, true, false, List, [], ◌∷◌, none, eqb, if◌then◌else◌, Bool-cases, inl, inr,
  length, ℕ, String, ◌==◌, Option, some, string_keyed, lookup, erase, lookup-erase, eqb_refl, arith,
}
use slick_sim.Common.Enums.{Side, OrderStatus, ExecType}
use slick_sim.Common.Order.{Order, OrderIdentity}
use slick_sim.Common.Messages.{OrderResponse, set_order_identity}
use slick_sim.OrderBook.L3.{OrderBookL3, IsOrderBookL3, RestsOn, drop_levels}
use slick_sim.OrderBook.State.{State, contains, remove, write, find_order, free_order, publish}
use slick_sim.OrderBook.Operations.{
  settle, unregister, delete_order, find_order_by_client_order_id, find_order_by_order_id,
}
use slick_sim.OrderBook.Effects.{delete_order_lem}
use slick_sim.OrderBook.Observers.{notify_all-Same, notify_all-SameNames}
use slick_sim.MatchingEngine.Publish.{order_cancel, publish_order_cancel}
use slick_sim.Exchange.Symbol.{cancel_order}

contains-remove : (id : ℕ) (ids : List ℕ) → contains id (remove id ids) ≡ false
contains-remove id [] = refl
contains-remove id (j ∷ ids) = elim (Bool-cases (eqb j id)) [
  | inl e ↦ rw e (contains-remove id ids)
  | inr e ↦ rw (e, e) (contains-remove id ids)
]

-- What a name finds once an order of the name `own` is gone: an order with no name stands under none.
abbrev pub without : (own name : String) → Option ℕ → Option ℕ
without own name found = if own == "" then found else if own == name then none else found

-- The names that found `id` before find nothing, and the others find what they did.
abbrev pub NamesGone : {B : Type 0} → ℕ → State B → State B → Type 0
NamesGone id before after =
    (name : String)
    → (find_order_by_client_order_id name after
        ≡ without (before.pool id).client_order_id name (find_order_by_client_order_id name before))
      × (find_order_by_order_id name after
          ≡ without (before.pool id).order_id name (find_order_by_order_id name before))

-- A report is about the order that `st` has under this id.
abbrev pub IsOf : {B : Type 0} → ℕ → State B → OrderResponse → Type 0
IsOf id st r =
    (r.identity ≡ (st.pool id).identity)
    × (r.order_num ≡ (st.pool id).id)
    × (r.request_tag ≡ (st.pool id).request_tag)

lookup-without :
    (own name : String) (m : List (String × ℕ))
    → lookup name (if own == "" then m else erase own m) ≡ without own name (lookup name m)
lookup-without own name m = elim (Bool-cases (own == "")) [
  | inl e ↦ rw e refl
  | inr e ↦ rw e (lookup-erase own name m)
]

module _ {B : Type 0} where
  unregistered :
      (id : ℕ) (st : State B)
      → contains id st.orders ≡ true
      → let after = if contains id st.orders then unregister id st else st in
        (after.freed ≡ st.freed)
        × (after.responses ≡ st.responses)
        × (contains id after.orders ≡ false)
        × (after.pool ≡ st.pool)
        × NamesGone id st after
  unfolding unregister find_order_by_client_order_id find_order_by_order_id
  unregistered id st e = rw e (
    refl,
    refl,
    contains-remove id st.orders,
    refl,
    λ name. (
      lookup-without (st.pool id).client_order_id name st.by_client_order_id,
      lookup-without (st.pool id).order_id name st.by_order_id,
    ),
  )

module _ {B : Type 0} (lib : OrderBookL3 B) (laws : IsOrderBookL3 lib) where
  open laws use {IsBook}

  -- A cancellation of an order that is found and rests takes exactly that order off both sides of the
  -- book, which stays a book; the order is not found any more, neither under its id nor under its names,
  -- and every other name finds what it did; one report comes, of the order's identity, number and request
  -- tag: CANCELED, with nothing left; and its slot goes back to the pool.
  pub cancel_order_lem :
      (s : Side) (id q request_time now : ℕ) (st : State B)
      → IsBook st.l3
      → RestsOn id q (lib.levels s st.l3)
      → find_order id st ≡ some id
      → let after = cancel_order lib id request_time now st in
        IsBook after.l3
        × ((t : Side) → lib.levels t after.l3 ≡ drop_levels id (lib.levels t st.l3))
        × (find_order id after ≡ none)
        × NamesGone id st after
        × (after.freed ≡ id ∷ st.freed)
        × ((r : OrderResponse) × (after.responses ≡ r ∷ st.responses)
            × IsOf id st r
            × (r.exec_type ≡ ExecType.canceled)
            × (r.order_status ≡ OrderStatus.canceled)
            × (r.leaves_qty ≡ 0))
  unfolding cancel_order free_order publish_order_cancel publish order_cancel set_order_identity
      find_order write delete_order settle find_order_by_client_order_id find_order_by_order_id
  cancel_order_lem s id q request_time now st b rests known =
      let stamped = write id (λ o. record o { last_update_time = now }) st in
      let (book, seq, levels, others) =
        delete_order_lem lib laws s id q now 0 true stamped b (inl refl) rests in
      let out = lib.delete_order id now 0 true stamped.l3 in
      let gone = settle stamped out in
      let (f, r, o) = notify_all-Same out.events (record stamped { l3 = out.book }) in
      let (c, n, i, t, k) = notify_all-SameNames out.events (record stamped { l3 = out.book }) in
      let here : contains id gone.orders ≡ true = ap (contains id) o ∙ ground (arith, known) in
      let done = delete_order lib id now 0 true stamped in
      let (f', r', absent, pool, names) = unregistered id gone here in
      let own : (gone.pool id).identity ≡ (st.pool id).identity = i id ∙ rw (eqb_refl id) refl in
      let tag : (gone.pool id).request_tag ≡ (st.pool id).request_tag =
        t id ∙ rw (eqb_refl id) refl in
      let num : (gone.pool id).id ≡ (st.pool id).id = k id ∙ rw (eqb_refl id) refl in
      let there = ap (λ (p : ℕ → Order). p id) pool in
      let report =
        order_cancel (done.pool id) request_time (done.recycled (length done.responses)) in
      (
        book,
        levels,
        rw absent refl,
        λ name.
            (let (by_client, by_order) = names name in
              (
                by_client
                    ∙ ap
                        (λ (o : OrderIdentity).
                          without o.client_order_id name (lookup name gone.by_client_order_id))
                        own
                    ∙ ap (λ m. without (st.pool id).client_order_id name (lookup name m)) c,
                by_order
                    ∙ ap
                        (λ (o : OrderIdentity).
                          without o.order_id name (lookup name gone.by_order_id))
                        own
                    ∙ ap (λ m. without (st.pool id).order_id name (lookup name m)) n,
              )),
        ap (λ x. id ∷ x) (f' ∙ f),
        (
          report,
          ap (λ x. report ∷ x) (r' ∙ r),
          (
            ap (λ (o : Order). o.identity) there ∙ own,
            ap (λ (o : Order). o.id) there ∙ num,
            ap (λ (o : Order). o.request_tag) there ∙ tag,
          ),
          refl,
          refl,
          refl,
        ),
      )
