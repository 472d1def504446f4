-- ===== src/OrderGateway/ClOrdIdIndex/Usage.antt =====
-- ClOrdIdIndex keeps no entry that no one needs.
use slick_sim.Prelude.{
  ℕ, ◌+◌, ◌^◌, ◌≤◌, ◌<◌, ◌≡◌, refl, true, false, not, ◌&&◌, ◌||◌, List, [], ◌∷◌, Option, none, some,
  arith, eqb, ltb, Keyed, ◌==◌, lookup, erase, Bool-cases, inl, inr, assign as put, lookup-erase,
  lookup-assign, ◌⊎◌, length,
}
use native.Mathlib.Nat.{mod-eq_of_lt}
use slick_sim.OrderGateway.ClOrdIdIndex.{
  Entry, keep_if_used, claim_at, claim, release_at, release, assign_at, assign, forget_at, forget,
  Call, claims_id, releases_id, assigns_id, forgets_id, step, run,
}

-- An entry is in use, with at most `n` claims.
pub record IsUsed (n : ℕ) (entry : Entry) : Type 0 where
  pub few : entry.claims ≤ n
  pub used : (entry.held ≡ true) ⊎ (0 < entry.claims)

abbrev IfUsed : ℕ → Option Entry → Type 0
IfUsed n none = Unit {0}
IfUsed n (some entry) = IsUsed n entry

IfUsed-more : (n : ℕ) (o : Option Entry) → IfUsed n o → IfUsed (n + 1) o
IfUsed-more n none u = tt
IfUsed-more n (some entry) u = let few = u.few in record { few = omega arith; used = u.used }

module _ {ℓ} {K : Type ℓ} ⦃e : Keyed K⦄ where
  abbrev pub AllUsed : ℕ → List (K × Entry) → Type ℓ
  AllUsed n ids = (id : K) → IfUsed n (lookup id ids)

  put-AllUsed :
      (n : ℕ) (id : K) (entry : Entry) (ids : List (K × Entry))
      → IsUsed n entry
      → AllUsed n ids
      → AllUsed n (put id entry ids)
  put-AllUsed n id entry ids u a j =
      rw (lookup-assign id j entry ids)
        (elim (Bool-cases (id == j)) [ inl same ↦ rw same u | inr other ↦ rw other (a j) ])

  erase-AllUsed :
      (n : ℕ) (id : K) (ids : List (K × Entry)) → AllUsed n ids → AllUsed n (erase id ids)
  erase-AllUsed n id ids a j =
      rw (lookup-erase id j ids)
        (elim (Bool-cases (id == j)) [ inl same ↦ rw same tt | inr other ↦ rw other (a j) ])

  keep_if_used-AllUsed :
      (n : ℕ) (id : K) (entry : Entry) (ids : List (K × Entry))
      → entry.claims ≤ n
      → AllUsed n ids
      → AllUsed n (keep_if_used id entry ids)
  unfolding keep_if_used
  keep_if_used-AllUsed n id entry ids few a =
      elim (Bool-cases (eqb entry.claims 0 && not entry.held)) [
        | inl idle ↦ rw idle (erase-AllUsed n id ids a)
        | inr busy ↦
            rw busy (put-AllUsed n id entry ids (record { few = few; used = in_use entry busy }) a)
      ]
    where
      in_use :
          (x : Entry) → (eqb x.claims 0 && not x.held) ≡ false → (x.held ≡ true) ⊎ (0 < x.claims)
      in_use x busy = elim (Bool-cases x.held) [ inl h ↦ inl h | inr h ↦ inr (ground arith) ]

  AllUsed-more : (n : ℕ) (ids : List (K × Entry)) → AllUsed n ids → AllUsed (n + 1) ids
  AllUsed-more n ids a j = IfUsed-more n (lookup j ids) (a j)

  claim_at-AllUsed :
      (n : ℕ) (id : K) (num : ℕ) (ids : List (K × Entry)) (o : Option Entry)
      → n + 1 < 2 ^ 32
      → IfUsed n o
      → AllUsed (n + 1) ids
      → AllUsed (n + 1) (claim_at id num ids o).0
  unfolding claim_at
  claim_at-AllUsed n id num ids none room u a =
      put-AllUsed (n + 1) id _ ids (record { few = omega arith; used = inr (omega arith) }) a
  claim_at-AllUsed n id num ids (some entry) room u a =
      let few = u.few in
      let same = mod-eq_of_lt {n = entry.claims + 1} {m = 2 ^ 32} (omega arith) in
      elim (Bool-cases (eqb num 0 || not (eqb entry.order num))) [
        | inl taken ↦ rw taken a
        | inr free ↦ rw free (
            put-AllUsed (n + 1) id _ ids (record { few = omega arith; used = inr (omega arith) }) a)
      ]

  release_at-AllUsed :
      (n : ℕ) (id : K) (ids : List (K × Entry)) (o : Option Entry)
      → IfUsed n o
      → AllUsed (n + 1) ids
      → AllUsed (n + 1) (release_at id ids o)
  unfolding release_at
  release_at-AllUsed n id ids none u a = a
  release_at-AllUsed n id ids (some entry) u a =
      let few = u.few in
      elim (Bool-cases (ltb 0 entry.claims)) [
        | inl some_claim ↦ rw some_claim (keep_if_used-AllUsed (n + 1) id _ ids (omega arith) a)
        | inr no_claim ↦ rw no_claim a
      ]

  assign_at-AllUsed :
      (n : ℕ) (id : K) (num : ℕ) (ids : List (K × Entry)) (o : Option Entry)
      → IfUsed n o
      → AllUsed (n + 1) ids
      → AllUsed (n + 1) (assign_at id num ids o)
  unfolding assign_at
  assign_at-AllUsed n id num ids none u a =
      put-AllUsed (n + 1) id _ ids (record { few = omega arith; used = inl refl }) a
  assign_at-AllUsed n id num ids (some entry) u a =
      let few = u.few in
      put-AllUsed (n + 1) id _ ids (record { few = omega arith; used = inl refl }) a

  forget_at-AllUsed :
      (n : ℕ) (id : K) (num : ℕ) (ids : List (K × Entry)) (o : Option Entry)
      → IfUsed n o
      → AllUsed (n + 1) ids
      → AllUsed (n + 1) (forget_at id num ids o)
  unfolding forget_at
  forget_at-AllUsed n id num ids none u a = a
  forget_at-AllUsed n id num ids (some entry) u a =
      let few = u.few in
      elim (Bool-cases (eqb entry.order num)) [
        | inl own ↦ rw own (keep_if_used-AllUsed (n + 1) id _ ids (omega arith) a)
        | inr other ↦ rw other a
      ]

  step-AllUsed :
      (n : ℕ) (c : Call K) (ids : List (K × Entry))
      → n + 1 < 2 ^ 32
      → AllUsed n ids
      → AllUsed (n + 1) (step c ids)
  unfolding step claim release assign forget
  step-AllUsed n (claims_id id num) ids room a =
      claim_at-AllUsed n id num ids (lookup id ids) room (a id) (AllUsed-more n ids a)
  step-AllUsed n (releases_id id) ids room a =
      release_at-AllUsed n id ids (lookup id ids) (a id) (AllUsed-more n ids a)
  step-AllUsed n (assigns_id id num) ids room a =
      assign_at-AllUsed n id num ids (lookup id ids) (a id) (AllUsed-more n ids a)
  step-AllUsed n (forgets_id id num) ids room a =
      forget_at-AllUsed n id num ids (lookup id ids) (a id) (AllUsed-more n ids a)

  run-AllUsed :
      (n : ℕ) (cs : List (Call K)) (ids : List (K × Entry))
      → n + length cs < 2 ^ 32
      → AllUsed n ids
      → AllUsed (n + length cs) (run cs ids)
  unfolding run
  run-AllUsed n [] ids room a = λ j. (let same : n + 0 ≡ n = omega arith in rw same (a j))
  run-AllUsed n (c ∷ cs) ids room a =
      let same : n + length (c ∷ cs) ≡ n + 1 + length cs = omega arith in
      rw same
        (run-AllUsed (n + 1) cs (step c ids) (omega arith) (step-AllUsed n c ids (omega arith) a))

  -- After fewer than 2 ^ 32 calls on an empty index, every entry is held by its order or has a claim,
  -- and has no more claims than there were calls.
  pub run_empty-AllUsed :
      (cs : List (Call K)) → length cs < 2 ^ 32 → AllUsed (length cs) (run cs [])
  unfolding lookup
  run_empty-AllUsed cs room =
      let all = run-AllUsed 0 cs [] (omega arith) λ id. tt in
      let same : 0 + length cs ≡ length cs = omega arith in rw same at all
