-- ===== src/Exchange/Session/Identities.antt =====
-- clientIdFor: one identity for each user, for the life of the process.
use slick_sim.Prelude.{
  ℕ, String, ◌<◌, ◌≡◌, ◌≢◌, refl, sym, ap, ◌∙◌, Option, none, some, arith, lookup, emplace,
  lookup-emplace, string_keyed, ◌==◌, if◌then◌else◌, ◌⊎◌, Bool-cases, inl, inr,
}
use slick_sim.Exchange.Session.{Exchange, client_found, client_id_for}

module _ {B : Type 0} where
  -- Every identity was handed out, and to one user.
  pub record AreAssigned (ex : Exchange B) : Type 0 where
    pub below : (u : String) (i : ℕ) → lookup u ex.client_ids ≡ some i → i < ex.next_client_id
    pub one_user :
        (u v : String) (i : ℕ)
        → lookup u ex.client_ids ≡ some i
        → lookup v ex.client_ids ≡ some i
        → u ≡ v

  -- Assigning a new user the next identity.
  lookup-new :
      (u v : String) (ex : Exchange B)
      → lookup u ex.client_ids ≡ none
      → lookup v (emplace u ex.next_client_id ex.client_ids)
        ≡ (if u == v then some ex.next_client_id else lookup v ex.client_ids)
  lookup-new u v ex free = lookup-emplace u v ex.next_client_id ex.client_ids ∙ rw free refl

  -- The user of an identity after the assignment: the new one, or as before.
  user_after :
      (u v : String) (i : ℕ) (ex : Exchange B)
      → lookup u ex.client_ids ≡ none
      → lookup v (emplace u ex.next_client_id ex.client_ids) ≡ some i
      → ((u ≡ v) × (i ≡ ex.next_client_id)) ⊎ (lookup v ex.client_ids ≡ some i)
  user_after u v i ex free h = elim (Bool-cases (u == v)) [
    | inl e ↦
        (let now = sym (lookup-new u v ex free) ∙ h in
          let is : some ex.next_client_id ≡ some i = rw e at now in
          inl ((string_keyed.same_iff u v).0 e, cc))
    | inr e ↦ (let now = sym (lookup-new u v ex free) ∙ h in inr (rw e at now))
  ]

  client_found-AreAssigned :
      (u : String) (ex : Exchange B) (o : Option ℕ)
      → lookup u ex.client_ids ≡ o
      → AreAssigned ex
      → AreAssigned (client_found u o ex).1
  unfolding client_found
  client_found-AreAssigned u ex (some i) e h = h
  client_found-AreAssigned u ex none e h = record {
    below = λ v i k. elim (user_after u v i ex e k) [
      | inl (same, is) ↦ omega arith
      | inr before ↦ (let less = h.below v i before in omega arith)
    ];
    one_user = λ v w i k l. elim (user_after u v i ex e k) [
      | inl (same, is) ↦ elim (user_after u w i ex e l) [
        | inl (same', is') ↦ sym same ∙ same'
        | inr before ↦ (let less = h.below w i before in absurd (omega arith))
      ]
      | inr before ↦ elim (user_after u w i ex e l) [
        | inl (same', is') ↦ (let less = h.below v i before in absurd (omega arith))
        | inr before' ↦ h.one_user v w i before before'
      ]
    ];
  }

  pub client_id_for-AreAssigned :
      (u : String) (ex : Exchange B) → AreAssigned ex → AreAssigned (client_id_for u ex).1
  unfolding client_id_for
  client_id_for-AreAssigned u ex h = elim (Bool-cases (u == "")) [
    | inl e ↦ rw e h
    | inr e ↦ rw e (client_found-AreAssigned u ex (lookup u ex.client_ids) refl h)
  ]

  found_lem :
      (u : String) (ex : Exchange B) (o : Option ℕ)
      → lookup u ex.client_ids ≡ o
      → let (id, ex') = client_found u o ex in
        ((i : ℕ) × (id ≡ some i) × (lookup u ex'.client_ids ≡ some i))
        × ((v : String) (j : ℕ)
            → lookup v ex.client_ids ≡ some j
            → lookup v ex'.client_ids ≡ some j)
  unfolding client_found
  found_lem u ex (some i) e = ((i, refl, e), λ v j k. k)
  found_lem u ex none e = (
    (
      ex.next_client_id,
      refl,
      lookup-new u u ex e ∙ (let self = (string_keyed.same_iff u u).1 refl in rw self refl),
    ),
    λ v j k. elim (Bool-cases (u == v)) [
      | inl same ↦
          (let is = (string_keyed.same_iff u v).0 same in
            let gone = ap (λ x. lookup x ex.client_ids) (sym is) ∙ e in cc)
      | inr other ↦ lookup-new u v ex e ∙ rw other k
    ],
  )

  -- A named user has an identity, which stays the user's, as every other user's does; one with no name has
  -- none, and the exchange is as before.
  pub client_id_for_lem :
      (u : String) (ex : Exchange B)
      → let (id, ex') = client_id_for u ex in
        ((u ≡ "") → (id ≡ none) × (ex' ≡ ex))
        × ((u ≢ "") → (i : ℕ) × (id ≡ some i) × (lookup u ex'.client_ids ≡ some i))
        × ((v : String) (j : ℕ)
            → lookup v ex.client_ids ≡ some j
            → lookup v ex'.client_ids ≡ some j)
  unfolding client_id_for
  client_id_for_lem u ex = elim (Bool-cases (u == "")) [
    | inl e ↦
        (let is = (string_keyed.same_iff u "").0 e in
          rw e (λ _. (refl, refl), λ named. absurd (named is), λ v j k. k))
    | inr e ↦
        (let (own, others) = found_lem u ex (lookup u ex.client_ids) refl in
          rw e (λ is. (let on = (string_keyed.same_iff u "").1 is in cc), λ _. own, others))
  ]
