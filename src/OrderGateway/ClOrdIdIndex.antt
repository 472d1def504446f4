-- ===== src/OrderGateway/ClOrdIdIndex.antt =====
-- order_gateway/cl_ord_id_index.hpp: one session's ClOrdIDs. Order number 0 means none.
pub mod Usage
pub mod Exclusion
use slick_sim.Prelude.{
  ℕ, ◌+◌, ◌-◌, ◌%◌, ◌^◌, ◌≤◌, ◌<◌, ◌≡◌, ◌≢◌, refl, Bool, true, false, not, ◌&&◌, ◌||◌, List, [],
  ◌∷◌, Option, none, some, arith, eqb, ltb, if◌then◌else◌, Keyed, ◌==◌, lookup, erase, Bool-cases,
  inl, inr, assign as put, lookup-erase, lookup-assign, Option-cases, ◌⊎◌, ap, sym, ◌∙◌,
}

-- The order that holds an id or that its claims are for, the requests in flight that named it, and
-- whether the order holds it now.
pub record Entry : Type 0 where
  pub order : ℕ
  pub claims : ℕ
  pub held : Bool

module _ {ℓ} {K : Type ℓ} ⦃e : Keyed K⦄ where
  unfoldable pub find : K → List (K × Entry) → ℕ
  find id ids = elim (lookup id ids) [
    | none ↦ 0
    | some entry ↦ if not entry.held then 0 else entry.order
  ]

  -- An entry that no one needs goes.
  unfoldable pub keep_if_used : K → Entry → List (K × Entry) → List (K × Entry)
  keep_if_used id entry ids =
      if eqb entry.claims 0 && not entry.held then erase id ids else put id entry ids

  -- Each call looks the id up once, and goes on with the entry that it found.
  unfoldable pub claim_at :
      K → (order_num : ℕ) → List (K × Entry) → Option Entry → List (K × Entry) × Bool
  claim_at id order_num ids none =
      (put id (record { order = order_num; claims = 1; held = false }) ids, true)
  claim_at id order_num ids (some entry) =
      if eqb order_num 0 || not (eqb entry.order order_num)
      then (ids, false)
      else (put id (record entry { claims = (entry.claims + 1) % 2 ^ 32 }) ids, true)

  unfoldable pub claim : K → (order_num : ℕ) → List (K × Entry) → List (K × Entry) × Bool
  claim id order_num ids = claim_at id order_num ids (lookup id ids)

  unfoldable pub release_at : K → List (K × Entry) → Option Entry → List (K × Entry)
  release_at id ids none = ids
  release_at id ids (some entry) =
      if ltb 0 entry.claims
      then keep_if_used id (record entry { claims = entry.claims - 1 }) ids
      else ids

  unfoldable pub release : K → List (K × Entry) → List (K × Entry)
  release id ids = release_at id ids (lookup id ids)

  unfoldable pub assign_at :
      K → (order_num : ℕ) → List (K × Entry) → Option Entry → List (K × Entry)
  assign_at id order_num ids none =
      put id (record { order = order_num; claims = 0; held = true }) ids
  assign_at id order_num ids (some entry) =
      put id (record entry { order = order_num; held = true }) ids

  unfoldable pub assign : K → (order_num : ℕ) → List (K × Entry) → List (K × Entry)
  assign id order_num ids = assign_at id order_num ids (lookup id ids)

  unfoldable pub forget_at :
      K → (order_num : ℕ) → List (K × Entry) → Option Entry → List (K × Entry)
  forget_at id order_num ids none = ids
  forget_at id order_num ids (some entry) =
      if eqb entry.order order_num then keep_if_used id (record entry { held = false }) ids else ids

  unfoldable pub forget : K → (order_num : ℕ) → List (K × Entry) → List (K × Entry)
  forget id order_num ids = forget_at id order_num ids (lookup id ids)

  unfoldable pub rename : (from to : K) → (order_num : ℕ) → List (K × Entry) → List (K × Entry)
  rename from to order_num ids = assign to order_num (forget from order_num ids)

-- The calls that change the index.
pub data Call {ℓ} (K : Type ℓ) : Type ℓ where
  claims_id : K → ℕ → Call K
  releases_id : K → Call K
  assigns_id : K → ℕ → Call K
  forgets_id : K → ℕ → Call K

module _ {ℓ} {K : Type ℓ} ⦃e : Keyed K⦄ where
  unfoldable pub step : Call K → List (K × Entry) → List (K × Entry)
  step (claims_id id order_num) ids = (claim id order_num ids).0
  step (releases_id id) ids = release id ids
  step (assigns_id id order_num) ids = assign id order_num ids
  step (forgets_id id order_num) ids = forget id order_num ids

  unfoldable pub run : List (Call K) → List (K × Entry) → List (K × Entry)
  run [] ids = ids
  run (c ∷ cs) ids = run cs (step c ids)
