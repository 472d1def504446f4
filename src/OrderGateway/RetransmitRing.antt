-- ===== src/OrderGateway/RetransmitRing.antt =====
-- order_gateway/retransmit_ring.hpp: the messages of a session by sequence number, in fixed slots. A
-- message is of any type; its encoding is not modelled. A sequence number has 32 bits.
pub mod Sent
use slick_sim.Prelude.{
  ℕ, zero, suc, ◌+◌, ◌%◌, ◌^◌, Bool, true, false, ◌||◌, List, [], ◌∷◌, ◌++◌, Option, none, some,
  eqb, ltb, if◌then◌else◌, get_elem?, length, replicate, take, ◌-◌, is_some, ◌&&◌,
}

-- A sequence number of 0 marks an empty slot.
pub record Slot (M : Type 0) : Type 0 where
  pub seq : ℕ
  pub message : M

-- A write to the element at an index.
abbrev pub alter {ℓ} : {A : Type ℓ} → ℕ → (A → A) → List A → List A
alter i f [] = []
alter zero f (x ∷ xs) = f x ∷ xs
alter (suc i) f (x ∷ xs) = x ∷ alter i f xs

abbrev pub at_least_one : ℕ → ℕ
at_least_one n = if ltb n 1 then 1 else n

module _ {M : Type 0} where
  -- The constructor; `blank` is the message of a slot that was never written.
  unfoldable pub ring_of : (blank : M) (capacity : ℕ) → List (Slot M)
  ring_of blank capacity = replicate (at_least_one capacity) (record { seq = 0; message = blank })

  -- A claim of a number of 32 bits.
  unfoldable pub claim_seq : ℕ → List (Slot M) → List (Slot M)
  claim_seq seq slots = alter (seq % length slots) (λ s. record s { seq = seq }) slots

  unfoldable pub claim : ℕ → List (Slot M) → List (Slot M)
  claim seq slots = claim_seq (seq % 2 ^ 32) slots

  -- A claim, and the message encoded into the slot that it returned.
  unfoldable pub send : ℕ → M → List (Slot M) → List (Slot M)
  send seq message slots =
      alter (seq % 2 ^ 32 % length slots) (λ s. record s { message = message }) (claim seq slots)

  unfoldable pub sent_as : ℕ → Option (Slot M) → Option (Slot M)
  sent_as seq none = none
  sent_as seq (some s) = if eqb s.seq seq then some s else none

  -- A lookup of a number of 32 bits.
  unfoldable pub find_seq : ℕ → List (Slot M) → Option (Slot M)
  find_seq seq slots =
      if eqb seq 0 || eqb (length slots) 0
      then none
      else sent_as seq (get_elem? slots (seq % length slots))

  unfoldable pub find : ℕ → List (Slot M) → Option (Slot M)
  find seq slots = find_seq (seq % 2 ^ 32) slots

  -- The loop from the offset `i`, for `count` more turns.
  unfoldable pub holds_on : (from i count : ℕ) → List (Slot M) → Bool
  holds_on from i zero slots = true
  holds_on from i (suc count) slots =
      let rest = holds_on from (i + 1) count slots in
      if is_some (find (from + i) slots) then rest else false

  unfoldable pub holds : (from count : ℕ) → List (Slot M) → Bool
  holds from count slots = holds_on from 0 count slots

  unfoldable pub clear : List (Slot M) → List (Slot M)
  clear [] = []
  clear (s ∷ slots) = record s { seq = 0 } ∷ clear slots

  -- New slots are empty.
  unfoldable pub resize : (blank : M) (capacity : ℕ) → List (Slot M) → List (Slot M)
  resize blank capacity slots =
      let n = at_least_one capacity in
      take n slots ++ replicate (n - length slots) (record { seq = 0; message = blank })
