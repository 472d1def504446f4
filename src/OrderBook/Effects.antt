-- ===== src/OrderBook/Effects.antt =====
-- What a call of OrderBook changes: the book as its laws say, and no order but the one it names.
use slick_sim.Prelude.{
  ℕ, ◌+◌, ◌<◌, ◌≡◌, ◌≢◌, refl, ◌∙◌, ap, Bool, true, false, ◌&&◌, List, [], ◌∷◌, Option, none, some,
  arith, eqb_refl, ltb, if◌then◌else◌, All, inl, inr,
}
use slick_sim.Common.Enums.{Side}
use slick_sim.Common.Order.{Order}
use slick_sim.OrderBook.L3.{
  Event, order_update, level_update, Outcome, OrderBookL3, IsOrderBookL3, IsCurrent, Concerns,
  RestsOn, cut_levels, drop_levels,
}
use slick_sim.OrderBook.State.{
  State, write, find_order, free_order, book_order_update, notify, notify_all, contains,
}
use slick_sim.OrderBook.Operations.{
  settle, unregister, delete_pooled, fill_own, close_own, delete_order, execute_order,
}

not_stale : (seq last : ℕ) → IsCurrent seq last → (ltb 0 seq && ltb seq last) ≡ false
not_stale seq last (inl e) = ground arith
not_stale seq last (inr h) = ground arith

module _ {B : Type 0} where
  notify-l3 : (e : Event) (st : State B) → (notify e st).l3 ≡ st.l3
  unfolding notify book_order_update write
  notify-l3 (order_update u) st = ground arith
  notify-l3 (level_update u) st = refl

  pub notify_all-l3 : (es : List Event) (st : State B) → (notify_all es st).l3 ≡ st.l3
  unfolding notify_all
  notify_all-l3 [] st = refl
  notify_all-l3 (e ∷ es) st = notify_all-l3 es (notify e st) ∙ notify-l3 e st

  notify-pool :
      (id left j : ℕ) (e : Event) (st : State B)
      → id ≢ j
      → Concerns id left e
      → (notify e st).pool j ≡ st.pool j
  unfolding notify book_order_update find_order write
  notify-pool id left j (order_update u) st ne c = ground arith
  notify-pool id left j (level_update u) st ne c = refl

  -- The observers write no order but the one that the events are about.
  pub notify_all-pool :
      (id left j : ℕ) (es : List Event) (st : State B)
      → id ≢ j
      → All (Concerns id left) es
      → (notify_all es st).pool j ≡ st.pool j
  unfolding notify_all
  notify_all-pool id left j [] st ne c = refl
  notify_all-pool id left j (e ∷ es) st ne (c, cs) =
      notify_all-pool id left j es (notify e st) ne cs ∙ notify-pool id left j e st ne c

  pub unregister-pool : (id j : ℕ) (st : State B) → (unregister id st).pool j ≡ st.pool j
  unfolding unregister
  unregister-pool id j st = refl

  pub delete_pooled_keeps :
      (id j : ℕ) (st : State B)
      → ((delete_pooled id st).pool j ≡ st.pool j) × ((delete_pooled id st).l3 ≡ st.l3)
  unfolding delete_pooled unregister free_order
  delete_pooled_keeps id j st = ground arith

  pub write_other :
      (id j : ℕ) (f : Order → Order) (st : State B)
      → id ≢ j
      → ((write id f st).pool j ≡ st.pool j) × ((write id f st).l3 ≡ st.l3)
  unfolding write
  write_other id j f st ne = ground arith

  pub write_self :
      (id : ℕ) (f : Order → Order) (st : State B) → (write id f st).pool id ≡ f (st.pool id)
  unfolding write
  write_self id f st = rw (eqb_refl id) refl

  find_order_self : (id j : ℕ) (st : State B) → find_order id st ≡ some j → j ≡ id
  unfolding find_order
  find_order_self id j st e = ground arith

  fill_own_keeps :
      (id j qty ts : ℕ) (st : State B)
      → id ≢ j
      → ((fill_own (find_order id st) qty ts st).pool j ≡ st.pool j)
        × ((fill_own (find_order id st) qty ts st).l3 ≡ st.l3)
  unfolding fill_own find_order write
  fill_own_keeps id j qty ts st ne = ground arith

  fill_own-l3 : (o : Option ℕ) (qty ts : ℕ) (st : State B) → (fill_own o qty ts st).l3 ≡ st.l3
  unfolding fill_own write
  fill_own-l3 none qty ts st = refl
  fill_own-l3 (some id) qty ts st = refl

  close_own_keeps :
      (o : Option ℕ) (j : ℕ) (st : State B)
      → ((close_own o st).pool j ≡ st.pool j) × ((close_own o st).l3 ≡ st.l3)
  unfolding close_own unregister
  close_own_keeps none j st = (refl, refl)
  close_own_keeps (some id) j st = ground arith

  settle-l3 : (st : State B) (out : Outcome B) → (settle st out).l3 ≡ out.book
  unfolding settle
  settle-l3 st out = notify_all-l3 out.events (record st { l3 = out.book })

  settle-pool :
      (id left j : ℕ) (st : State B) (out : Outcome B)
      → id ≢ j
      → All (Concerns id left) out.events
      → (settle st out).pool j ≡ st.pool j
  unfolding settle
  settle-pool id left j st out ne c =
      notify_all-pool id left j out.events (record st { l3 = out.book }) ne c

  drop_own-l3 :
      (id : ℕ) (st : State B) → (if contains id st.orders then unregister id st else st).l3 ≡ st.l3
  unfolding unregister
  drop_own-l3 id st = ground arith

  drop_own-pool :
      (id j : ℕ) (st : State B)
      → (if contains id st.orders then unregister id st else st).pool j ≡ st.pool j
  unfolding unregister
  drop_own-pool id j st = ground arith

module _ {B : Type 0} (lib : OrderBookL3 B) (laws : IsOrderBookL3 lib) where
  open laws use {
    IsBook, execute_accepted, execute-IsBook, execute-Concerns, delete-IsBook, delete-Concerns,
  }

  -- A current execution of an order that rests with enough is taken.
  pub execute_order_lem :
      (s : Side) (id q left ts seq : ℕ) (last : Bool) (st : State B)
      → IsBook st.l3
      → IsCurrent seq (lib.last_seq_num st.l3)
      → 0 < q
      → RestsOn id (q + left) (lib.levels s st.l3)
      → let r = execute_order lib id q ts seq last st in
        (r.1 ≡ true)
        × IsBook r.0.l3
        × IsCurrent seq (lib.last_seq_num r.0.l3)
        × ((t : Side) → lib.levels t r.0.l3 ≡ cut_levels id q (lib.levels t st.l3))
        × ((j : ℕ) → id ≢ j → r.0.pool j ≡ st.pool j)
  unfolding execute_order
  execute_order_lem s id q left ts seq last st b c pos rests =
      let order = find_order id st in
      let filled = fill_own order q ts st in
      let out = lib.execute_order id q ts seq last filled.l3 in
      let same : filled.l3 ≡ st.l3 = fill_own-l3 order q ts st in
      let done = settle filled out in
      let book : (close_own order done).l3 ≡ (lib.execute_order id q ts seq last st.l3).book =
        (close_own_keeps order 0 done).1
        ∙ settle-l3 filled out
        ∙ ap (λ x. (lib.execute_order id q ts seq last x).book) same in
      let (b', c', levels') = execute-IsBook s st.l3 id q left ts seq last b c pos rests in
      let told : All (Concerns id left) out.events =
        rw same (execute-Concerns s st.l3 id q left ts seq last b c pos rests) in
      rw (not_stale seq (lib.last_seq_num st.l3) c) (
        rw same (execute_accepted s st.l3 id q left ts seq last b c pos rests),
        rw book b',
        rw book c',
        λ t. rw book (levels' t),
        λ j ne.
            (close_own_keeps order j done).0
            ∙ settle-pool id left j filled out ne told
            ∙ (fill_own_keeps id j q ts st ne).0,
      )

  -- A current removal of an order that rests.
  pub delete_order_lem :
      (s : Side) (id q ts seq : ℕ) (last : Bool) (st : State B)
      → IsBook st.l3
      → IsCurrent seq (lib.last_seq_num st.l3)
      → RestsOn id q (lib.levels s st.l3)
      → let after = delete_order lib id ts seq last st in
        IsBook after.l3
        × IsCurrent seq (lib.last_seq_num after.l3)
        × ((t : Side) → lib.levels t after.l3 ≡ drop_levels id (lib.levels t st.l3))
        × ((j : ℕ) → id ≢ j → after.pool j ≡ st.pool j)
  unfolding delete_order
  delete_order_lem s id q ts seq last st b c rests =
      let out = lib.delete_order id ts seq last st.l3 in
      let gone = settle st out in
      let (b', c', levels') = delete-IsBook s st.l3 id q ts seq last b c rests in
      let told = delete-Concerns s st.l3 id q ts seq last b c rests in
      let done = if contains id gone.orders then unregister id gone else gone in
      let book : done.l3 ≡ out.book = drop_own-l3 id gone ∙ settle-l3 st out in
      (
        rw book b',
        rw book c',
        (λ t. rw book (levels' t)),
        λ j ne. drop_own-pool id j gone ∙ settle-pool id 0 j st out ne told,
      )
