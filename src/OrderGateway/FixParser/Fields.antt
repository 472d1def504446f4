-- ===== src/OrderGateway/FixParser/Fields.antt =====
-- How many fields a message has that the FIX parser cuts off.
use slick_sim.Prelude.{
  ℕ, suc, ◌+◌, ◌<◌, ◌≡◌, ◌≢◌, refl, ap, ◌∙◌, Bool, List, [], ◌∷◌, ◌++◌, reverse, reverse-cons, none,
  some, eqb, if◌then◌else◌, arith, Bool-cases, inl, inr,
}
use slick_sim.OrderGateway.FixParser.{
  soh, Cracked, threw, cracked, ParseResult, no_message, is_complete_fix_message, turn,
  parse_messages, parse_message,
}

-- The number of fields of a text: each ends with SOH.
abbrev pub count_fields : List ℕ → ℕ
count_fields [] = 0
count_fields (c ∷ cs) = if eqb c soh then suc (count_fields cs) else count_fields cs

count_fields-append : (xs ys : List ℕ) → count_fields (xs ++ ys) ≡ count_fields xs + count_fields ys
count_fields-append [] ys = omega arith
count_fields-append (x ∷ xs) ys =
    let rest = count_fields-append xs ys in
    elim (Bool-cases (eqb x soh)) [ inl e ↦ rw e (omega (arith, rest)) | inr e ↦ rw e rest ]

count_fields-reverse : (xs : List ℕ) → count_fields (reverse xs) ≡ count_fields xs
count_fields-reverse [] = refl
count_fields-reverse (x ∷ xs) =
    let rest = count_fields-reverse xs in
    ap count_fields (reverse-cons x xs)
    ∙ (count_fields-append (reverse xs) (x ∷ []) ∙ (elim (Bool-cases (eqb x soh)) [
      | inl e ↦ rw e (omega (arith, rest))
      | inr e ↦ rw e (omega (arith, rest))
    ]))

module _ {O : Type 0} (crack : List ℕ → Cracked O) where
  -- An order takes a message of several fields: a header, a body and a trailer.
  abbrev pub NeedsFields : Type 0
  NeedsFields =
      (text : List ℕ) (o : O) (e : Bool) → crack text ≡ cracked (some o) e → 1 < count_fields text

  turn-no_order :
      (c : Cracked O) (result : ParseResult O) (buffer : List ℕ)
      (go_on : ParseResult O → ParseResult O × List ℕ)
      → result.order ≡ none
      → ((o : O) (e : Bool) → c ≢ cracked (some o) e)
      → ((r : ParseResult O) → r.order ≡ none → (go_on r).0.order ≡ none)
      → (turn c result buffer go_on).0.order ≡ none
  unfolding turn
  turn-no_order threw result buffer go_on h other rest = h
  turn-no_order (cracked none has_error) result buffer go_on h other rest = rest _ refl
  turn-no_order (cracked (some o) has_error) result buffer go_on h other rest =
      absurd (other o has_error refl)

  parse_messages-no_order :
      NeedsFields
      → (result : ParseResult O) (seen bytes : List ℕ) → result.order ≡ none
      → count_fields seen ≡ 0
      → (parse_messages crack result seen bytes).0.order ≡ none
  unfolding parse_messages
  parse_messages-no_order needs result seen [] h one = h
  parse_messages-no_order needs result seen (b ∷ bs) h one =
      let text = reverse (b ∷ seen) in
      let fields = count_fields-reverse (b ∷ seen) in
      let next =
        λ (r : ParseResult O) (k : r.order ≡ none). parse_messages-no_order needs r [] bs k refl in
      elim (Bool-cases (eqb b soh)) [
        | inl end ↦ rw end (elim (Bool-cases (is_complete_fix_message text)) [
          | inl complete ↦ rw complete (
              turn-no_order (crack text) result bs (λ r. parse_messages crack r [] bs) h
                (λ o e is.
                  (let many = needs text o e is in
                    let single : count_fields (b ∷ seen) ≡ 1 = rw end (ap suc one) in omega arith))
                next)
          | inr partial ↦ rw partial (next result h)
        ])
        | inr inside ↦
            rw inside (parse_messages-no_order needs result (b ∷ seen) bs h (rw inside one))
      ]

  -- If an order takes a text of several fields, then whatever stands in the buffer and whatever bytes come, no
  -- order is read: the parser cuts after every field.
  pub parse_message-no_order :
      NeedsFields
      → (buffer data_bytes : List ℕ) → (parse_message crack buffer data_bytes).0.order ≡ none
  unfolding parse_message
  parse_message-no_order needs buffer data_bytes =
      parse_messages-no_order needs no_message [] (buffer ++ data_bytes) refl refl
