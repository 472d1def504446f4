-- ===== src/OrderGateway/FixParser.antt =====
-- order_gateway/fix_parser.cpp: how the FIX parser cuts its bytes into messages. The QuickFIX library,
-- which reads a message and cracks it, is a parameter.
pub mod Fields
use slick_sim.Prelude.{
  ℕ, suc, ◌+◌, ◌<◌, ◌≡◌, ◌≢◌, refl, ap, sym, ◌∙◌, Bool, true, false, ◌&&◌, List, [], ◌∷◌, ◌++◌,
  reverse, reverse-cons, append_assoc, Option, none, some, eqb, if◌then◌else◌, arith, Bool-cases,
  inl, inr,
}

-- ASCII 1, which ends every field.
abbrev pub soh : ℕ
soh = 1

-- What the library makes of a text: an exception, or a message that cracks to an order or to none, with
-- or without an error message.
pub data Cracked (O : Type 0) : Type 0 where
  threw : Cracked O
  cracked : Option O → (has_error : Bool) → Cracked O

pub record ParseResult (O : Type 0) : Type 0 where
  pub order : Option O
  pub has_error : Bool
  pub is_complete_message : Bool

unfoldable pub starts_with : (prefix text : List ℕ) → Bool
starts_with [] text = true
starts_with (p ∷ ps) [] = false
starts_with (p ∷ ps) (c ∷ cs) = eqb p c && starts_with ps cs

unfoldable pub ends_with : ℕ → List ℕ → Bool
ends_with c [] = false
ends_with c (x ∷ []) = eqb x c
ends_with c (x ∷ (y ∷ ys)) = ends_with c (y ∷ ys)

-- "8=FIX"
abbrev pub begin_string : List ℕ
begin_string = b'8' ∷ b'=' ∷ b'F' ∷ b'I' ∷ b'X' ∷ []

unfoldable pub is_complete_fix_message : List ℕ → Bool
is_complete_fix_message buffer = starts_with begin_string buffer && ends_with soh buffer

module _ {O : Type 0} where
  abbrev pub no_message : ParseResult O
  no_message = record { order = none; has_error = false; is_complete_message = false }

  -- The end of a turn of the loop: an order or an exception ends it, with the rest of the buffer kept.
  unfoldable pub turn :
      Cracked O
      → ParseResult O
      → (buffer : List ℕ) → (ParseResult O → ParseResult O × List ℕ)
      → ParseResult O × List ℕ
  turn threw result buffer go_on = (record result { has_error = true }, buffer)
  turn (cracked none has_error) result buffer go_on =
      go_on (record { order = none; has_error = has_error; is_complete_message = true })
  turn (cracked (some o) has_error) result buffer go_on =
      (record { order = some o; has_error = has_error; is_complete_message = true }, buffer)

  -- The loop over the messages of the buffer, of which `seen`, the last byte first, has no end yet. The
  -- result, and the buffer that is kept.
  unfoldable pub parse_messages :
      (crack : List ℕ → Cracked O) → ParseResult O → (seen bytes : List ℕ) → ParseResult O × List ℕ
  parse_messages crack result seen [] =
      (record result { is_complete_message = false }, reverse seen)
  parse_messages crack result seen (b ∷ bs) =
      let next = λ (r : ParseResult O). parse_messages crack r [] bs in
      let longer = parse_messages crack result (b ∷ seen) bs in
      let fix_message = reverse (b ∷ seen) in
      if eqb b soh
      then (if is_complete_fix_message fix_message
          then turn (crack fix_message) result bs next
          else next result)
      else longer

  -- parse_message: the bytes join the buffer. The result, and the buffer that is kept.
  unfoldable pub parse_message :
      (crack : List ℕ → Cracked O) → (buffer data_bytes : List ℕ) → ParseResult O × List ℕ
  parse_message crack buffer data_bytes = parse_messages crack no_message [] (buffer ++ data_bytes)
