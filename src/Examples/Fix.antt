-- ===== src/Examples/Fix.antt =====
-- The FIX parser on the bytes of a message.
use slick_sim.Prelude.{
  ℕ, ◌≡◌, false, List, [], ◌∷◌, ◌++◌, none, some, ltb, if◌then◌else◌, Bool-cases, inl, inr, ltb→lt,
}
use slick_sim.OrderGateway.FixParser.{soh, Cracked, threw, cracked, begin_string, parse_message}
use slick_sim.OrderGateway.FixParser.Fields.{count_fields, NeedsFields, parse_message-no_order}

-- A library that reads an order from any text of two fields or more, and throws on any other.
abbrev reads : List ℕ → Cracked ℕ
reads text = if ltb 1 (count_fields text) then cracked (some 7) false else threw

reads-NeedsFields : NeedsFields reads
reads-NeedsFields text o e is = elim (Bool-cases (ltb 1 (count_fields text))) [
  | inl l ↦ ltb→lt 1 (count_fields text) l
  | inr l ↦ (let other : threw ≡ cracked (some o) e = rw l at is in cc)
]

-- Two fields, of which the first is "8=FIX".
abbrev two_fields : List ℕ
two_fields = begin_string ++ (soh ∷ (b'9' ∷ (soh ∷ [])))

parse_message-no_order_example : (parse_message reads [] two_fields).0.order ≡ none
parse_message-no_order_example = parse_message-no_order reads reads-NeedsFields [] two_fields
