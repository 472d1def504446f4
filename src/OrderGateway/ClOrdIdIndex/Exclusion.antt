-- ===== src/OrderGateway/ClOrdIdIndex/Exclusion.antt =====
-- ClOrdIdIndex: a claim for a new order is exclusive until it is released.
use slick_sim.Prelude.{
  ℕ, ◌≡◌, refl, true, false, not, ◌&&◌, ◌||◌, List, [], ◌∷◌, All, sym, ap, ◌∙◌, Option, none, some,
  arith, eqb, ltb, Keyed, ◌==◌, lookup, Bool-cases, inl, inr, lookup-erase, lookup-assign,
}
use slick_sim.OrderGateway.ClOrdIdIndex.{
  Entry, keep_if_used, claim_at, claim, release_at, release, assign_at, assign, forget_at, forget,
  Call, claims_id, releases_id, assigns_id, forgets_id, step, run,
}

module _ {ℓ} {K : Type ℓ} ⦃e : Keyed K⦄ where
  -- A call about another id, or a claim.
  abbrev pub Leaves : K → Call K → Type 0
  Leaves id (claims_id k n) = Unit {0}
  Leaves id (releases_id k) = (k == id) ≡ false
  Leaves id (assigns_id k n) = (k == id) ≡ false
  Leaves id (forgets_id k n) = (k == id) ≡ false

  abbrev Claimed : K → List (K × Entry) → Type 0
  Claimed id ids = lookup id ids ≡ some (record { order = 0; claims = 1; held = false })

  keep_if_used_other :
      (id k : K) (entry : Entry) (ids : List (K × Entry))
      → (k == id) ≡ false
      → lookup id (keep_if_used k entry ids) ≡ lookup id ids
  unfolding keep_if_used
  keep_if_used_other id k entry ids other =
      elim (Bool-cases (eqb entry.claims 0 && not entry.held)) [
        | inl idle ↦ rw (idle, lookup-erase k id ids, other) refl
        | inr busy ↦ rw (busy, lookup-assign k id entry ids, other) refl
      ]

  claim_at-Claimed :
      (id k : K) (n : ℕ) (ids : List (K × Entry)) (o : Option Entry)
      → lookup k ids ≡ o
      → Claimed id ids
      → Claimed id (claim_at k n ids o).0
  unfolding claim_at
  claim_at-Claimed id k n ids o f h = elim (Bool-cases (k == id)) [
    | inl same ↦ at_same (sym f ∙ ap (λ x. lookup x ids) ((e.same_iff k id).0 same) ∙ h)
    | inr other ↦ at_other o other
  ]
    where
      at_other : (o : Option Entry) → (k == id) ≡ false → Claimed id (claim_at k n ids o).0
      at_other none other = rw (lookup-assign k id _ ids, other) h
      at_other (some entry) other = elim (Bool-cases (eqb n 0 || not (eqb entry.order n))) [
        | inl taken ↦ rw taken h
        | inr free ↦ rw (free, lookup-assign k id _ ids, other) h
      ]

      at_same :
          o ≡ some (record { order = 0; claims = 1; held = false })
          → Claimed id (claim_at k n ids o).0
      at_same found =
          let busy : (eqb n 0 || not (eqb 0 n)) ≡ true = ground arith in rw (found, busy) h

  release_at-Claimed :
      (id k : K) (ids : List (K × Entry)) (o : Option Entry)
      → (k == id) ≡ false
      → Claimed id ids
      → Claimed id (release_at k ids o)
  unfolding release_at
  release_at-Claimed id k ids none away h = h
  release_at-Claimed id k ids (some entry) away h = elim (Bool-cases (ltb 0 entry.claims)) [
    | inl some_claim ↦ rw some_claim (keep_if_used_other id k _ ids away ∙ h)
    | inr no_claim ↦ rw no_claim h
  ]

  assign_at-Claimed :
      (id k : K) (n : ℕ) (ids : List (K × Entry)) (o : Option Entry)
      → (k == id) ≡ false
      → Claimed id ids
      → Claimed id (assign_at k n ids o)
  unfolding assign_at
  assign_at-Claimed id k n ids none away h = rw (lookup-assign k id _ ids, away) h
  assign_at-Claimed id k n ids (some entry) away h = rw (lookup-assign k id _ ids, away) h

  forget_at-Claimed :
      (id k : K) (n : ℕ) (ids : List (K × Entry)) (o : Option Entry)
      → (k == id) ≡ false
      → Claimed id ids
      → Claimed id (forget_at k n ids o)
  unfolding forget_at
  forget_at-Claimed id k n ids none away h = h
  forget_at-Claimed id k n ids (some entry) away h = elim (Bool-cases (eqb entry.order n)) [
    | inl own ↦ rw own (keep_if_used_other id k _ ids away ∙ h)
    | inr other ↦ rw other h
  ]

  step-Claimed :
      (id : K) (c : Call K) (ids : List (K × Entry))
      → Leaves id c
      → Claimed id ids
      → Claimed id (step c ids)
  unfolding step claim release assign forget
  step-Claimed id (claims_id k n) ids away h = claim_at-Claimed id k n ids (lookup k ids) refl h
  step-Claimed id (releases_id k) ids away h = release_at-Claimed id k ids (lookup k ids) away h
  step-Claimed id (assigns_id k n) ids away h = assign_at-Claimed id k n ids (lookup k ids) away h
  step-Claimed id (forgets_id k n) ids away h = forget_at-Claimed id k n ids (lookup k ids) away h

  run-Claimed :
      (id : K) (cs : List (Call K)) (ids : List (K × Entry))
      → All (Leaves id) cs
      → Claimed id ids
      → Claimed id (run cs ids)
  unfolding run
  run-Claimed id [] ids away h = h
  run-Claimed id (c ∷ cs) ids (away, aways) h =
      run-Claimed id cs (step c ids) aways (step-Claimed id c ids away h)

  refused : (k : K) (n : ℕ) (ids : List (K × Entry)) → Claimed k ids → (claim k n ids).1 ≡ false
  unfolding claim claim_at
  refused k n ids h = rw h (ground arith)

  accepted_new :
      (id : K) (ids : List (K × Entry)) (o : Option Entry)
      → (claim_at id 0 ids o).1 ≡ true
      → Claimed id (claim_at id 0 ids o).0
  unfolding claim_at
  accepted_new id ids none h = rw (lookup-assign id id _ ids, (e.same_iff id id).1 refl) refl
  accepted_new id ids (some entry) h = ground arith

  -- Once an id is claimed for a new order, every other claim of it is refused, for any order, until
  -- the id is released, assigned or forgotten: whatever calls about other ids and whatever claims
  -- come between.
  pub claim_exclusive :
      (id : K) (ids : List (K × Entry)) (cs : List (Call K)) (n : ℕ)
      → (claim id 0 ids).1 ≡ true
      → All (Leaves id) cs
      → (claim id n (run cs (claim id 0 ids).0)).1 ≡ false
  unfolding claim
  claim_exclusive id ids cs n accepted away =
      refused id n (run cs (claim id 0 ids).0)
        (run-Claimed id cs (claim id 0 ids).0 away (accepted_new id ids (lookup id ids) accepted))
