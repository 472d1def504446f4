-- ===== src/OrderGateway/RetransmitRing/Sent.antt =====
-- What a RetransmitRing holds after a session's messages 1, 2, … were sent.
use native.Mathlib.Nat.{mod-lt, mod-eq_of_lt, add-mod_right}
use slick_sim.Prelude.Remainders.{mod_apart}
use slick_sim.Prelude.{
  ℕ, zero, suc, ◌+◌, ◌-◌, ◌%◌, ◌^◌, ◌≤◌, ◌<◌, ◌≡◌, refl, sym, ap, ◌∙◌, true, false, ◌||◌, List, [],
  ◌∷◌, Option, none, some, arith, eqb, if◌then◌else◌, get_elem?, length, replicate,
  length-replicate, Bool-cases, inl, inr,
}
use slick_sim.OrderGateway.RetransmitRing.{
  Slot, alter, at_least_one, ring_of, claim_seq, claim, send, sent_as, find_seq, find,
}

module _ {ℓ} {A : Type ℓ} where
  length-alter : (i : ℕ) (f : A → A) (xs : List A) → length (alter i f xs) ≡ length xs
  length-alter i f [] = refl
  length-alter zero f (x ∷ xs) = refl
  length-alter (suc i) f (x ∷ xs) = omega (arith, length-alter i f xs)

  get_elem?-alter_other :
      (i j : ℕ) (f : A → A) (xs : List A)
      → (i ≡ j → ⊥)
      → get_elem? (alter i f xs) j ≡ get_elem? xs j
  get_elem?-alter_other i j f [] h = refl
  get_elem?-alter_other zero zero f (x ∷ xs) h = absurd (h refl)
  get_elem?-alter_other zero (suc j) f (x ∷ xs) h = refl
  get_elem?-alter_other (suc i) zero f (x ∷ xs) h = refl
  get_elem?-alter_other (suc i) (suc j) f (x ∷ xs) h =
      get_elem?-alter_other i j f xs (λ e. h (omega arith))

  get_elem?-alter_self :
      (i : ℕ) (f : A → A) (xs : List A) (a : A)
      → get_elem? xs i ≡ some a
      → get_elem? (alter i f xs) i ≡ some (f a)
  get_elem?-alter_self i f [] a h = ground arith
  get_elem?-alter_self zero f (x ∷ xs) a h = cc h
  get_elem?-alter_self (suc i) f (x ∷ xs) a h = get_elem?-alter_self i f xs a h

  get_elem?-within : (i : ℕ) (xs : List A) → i < length xs → (a : A) × (get_elem? xs i ≡ some a)
  get_elem?-within i [] h = elim h [ ]
  get_elem?-within zero (x ∷ xs) h = (x, refl)
  get_elem?-within (suc i) (x ∷ xs) h = get_elem?-within i xs (omega arith)

-- The message `s` among the last `window` of `ms`, which lists the newest message first and numbers
-- the oldest 1.
abbrev pub recent : {M : Type 0} → (window s : ℕ) → List M → Option (Slot M)
recent window s [] = none
recent zero s (m ∷ ms) = none
recent (suc w) s (m ∷ ms) =
    if eqb s (length (m ∷ ms)) then some (record { seq = s; message = m }) else recent w s ms

at_least_one_pos : (c : ℕ) → 0 < at_least_one c
at_least_one_pos c = ground arith

at_least_one-suc : (c : ℕ) → at_least_one c ≡ suc (at_least_one c - 1)
at_least_one-suc c = let pos = at_least_one_pos c in omega arith

module _ {M : Type 0} where
  -- The ring after the messages of `ms` were sent, the newest first.
  unfoldable pub sent_all : (blank : M) (capacity : ℕ) → List M → List (Slot M)
  sent_all blank capacity [] = ring_of blank capacity
  sent_all blank capacity (m ∷ ms) = send (length (m ∷ ms)) m (sent_all blank capacity ms)

  recent_zero : (w : ℕ) (ms : List M) → recent w 0 ms ≡ none
  recent_zero w [] = refl
  recent_zero zero (m ∷ ms) = refl
  recent_zero (suc w) (m ∷ ms) = ground (arith, recent_zero w ms)

  recent_shorter :
      (w s : ℕ) (ms : List M) → (s + w ≡ length ms → ⊥) → recent (suc w) s ms ≡ recent w s ms
  recent_shorter w s [] h = refl
  recent_shorter zero s (m ∷ []) h = let other : eqb s 1 ≡ false = ground arith in rw other refl
  recent_shorter zero s (m ∷ n ∷ ms) h =
      let other : eqb s (length (m ∷ n ∷ ms)) ≡ false = ground arith in rw other refl
  recent_shorter (suc w) s (m ∷ ms) h =
      let more = recent_shorter w s ms (λ e. h (omega arith)) in
      elim (Bool-cases (eqb s (length (m ∷ ms)))) [ inl e ↦ rw e refl | inr e ↦ rw e more ]

  recent_gone : (w s : ℕ) (ms : List M) → (s ≤ length ms → s + w ≤ length ms) → recent w s ms ≡ none
  recent_gone w s [] h = refl
  recent_gone zero s (m ∷ ms) h = refl
  recent_gone (suc w) s (m ∷ ms) h =
      let other : eqb s (length (m ∷ ms)) ≡ false = elim (Bool-cases (eqb s (length (m ∷ ms)))) [
        | inl e ↦ (let far = h (ground arith) in ground arith)
        | inr e ↦ e
      ] in
      rw other (recent_gone w s ms (λ le. (let far = h (omega arith) in omega arith)))

  sent_as-replicate :
      (s n i : ℕ) (b : M)
      → 0 < s
      → sent_as s (get_elem? (replicate n (record { seq = 0; message = b })) i) ≡ none
  unfolding sent_as
  sent_as-replicate s zero i b h = refl
  sent_as-replicate s (suc n) zero b h = ground arith
  sent_as-replicate s (suc n) (suc i) b h = sent_as-replicate s n i b h

  find_lem :
      (s : ℕ) (slots : List (Slot M))
      → 0 < s
      → s < 2 ^ 32
      → 0 < length slots
      → find s slots ≡ sent_as s (get_elem? slots (s % length slots))
  unfolding find find_seq
  find_lem s slots h wide c =
      let on : (eqb s 0 || eqb (length slots) 0) ≡ false = ground arith in
      rw (mod-eq_of_lt {n = s} {m = 2 ^ 32} wide, on) refl

  length-send : (s : ℕ) (m : M) (slots : List (Slot M)) → length (send s m slots) ≡ length slots
  unfolding send claim claim_seq
  length-send s m slots = length-alter _ _ _ ∙ length-alter _ _ slots

  send_self :
      (s i : ℕ) (m : M) (slots : List (Slot M))
      → s < 2 ^ 32
      → i ≡ s % length slots
      → i < length slots
      → get_elem? (send s m slots) i ≡ some (record { seq = s; message = m })
  unfolding send claim claim_seq
  send_self s i m slots wide e h =
      let (a, found) = get_elem?-within i slots h in
      rw (mod-eq_of_lt {n = s} {m = 2 ^ 32} wide, sym e)
        (get_elem?-alter_self i _ _ _ (get_elem?-alter_self i _ slots a found))

  send_other :
      (s i : ℕ) (m : M) (slots : List (Slot M))
      → s < 2 ^ 32
      → (s % length slots ≡ i → ⊥)
      → get_elem? (send s m slots) i ≡ get_elem? slots i
  unfolding send claim claim_seq
  send_other s i m slots wide h =
      rw (mod-eq_of_lt {n = s} {m = 2 ^ 32} wide)
        (get_elem?-alter_other _ i _ _ h ∙ get_elem?-alter_other _ i _ slots h)

  length-sent_all : (b : M) (c : ℕ) (ms : List M) → length (sent_all b c ms) ≡ at_least_one c
  unfolding sent_all ring_of
  length-sent_all b c [] = length-replicate (at_least_one c) _
  length-sent_all b c (m ∷ ms) = length-send _ m _ ∙ length-sent_all b c ms

  step_recent :
      (w s : ℕ) (m : M) (ms : List M) (slots : List (Slot M))
      → 0 < s
      → s < 2 ^ 32
      → length (m ∷ ms) < 2 ^ 32
      → length slots ≡ suc w
      → find s slots ≡ recent (suc w) s ms
      → find s (send (length (m ∷ ms)) m slots) ≡ recent (suc w) s (m ∷ ms)
  unfolding sent_as
  step_recent w s m ms slots pos wide few size before =
      let n = length (m ∷ ms) in
      let after = send n m slots in
      let kept = length-send n m slots in
      let look = find_lem s after pos wide (omega arith) in
      let old = find_lem s slots pos wide (omega arith) in
      let at = s % length after in
      let same_at : at ≡ s % length slots = ap (λ c. s % c) kept in
      elim (Bool-cases (eqb s n)) [
        | inl e ↦
            (let is : s ≡ n = ground arith in
              let here = same_at ∙ ap (λ x. x % length slots) is in
              let room = mod-lt s {m = length after} (omega arith) in
              let found = send_self n at m slots few here (omega arith) in
              look
              ∙ ap (sent_as s) found
              ∙ (let flip : eqb n s ≡ true = ground arith in
                  rw (flip, e) (ap (λ x. some (record { seq = x; message = m })) (sym is))))
        | inr e ↦ elim (Bool-cases (eqb (n % length slots) (s % length slots))) [
          | inl clash ↦
              (let found =
                  send_self n at m slots few (same_at ∙ sym (ground arith))
                    (let room = mod-lt s {m = length after} (omega arith) in omega arith) in
                let gone = recent_gone w s ms (λ le.
                  (let far = mod_apart s n (length slots) (omega arith) (ground arith) in
                    omega arith)) in
                look
                ∙ ap (sent_as s) found
                ∙ (let flip : eqb n s ≡ false = ground arith in rw (flip, e) (sym gone)))
          | inr apart ↦
              (let found =
                  send_other n at m slots few (λ x. (let y = x ∙ same_at in ground arith)) in
                let short = recent_shorter w s ms (λ x.
                  (let whole : n ≡ s + length slots = omega arith in
                    let wraps = ap (λ y. y % length slots) whole ∙ add-mod_right s (length slots) in
                    ground arith)) in
                look
                ∙ ap (sent_as s) (found ∙ ap (get_elem? slots) same_at)
                ∙ sym old
                ∙ before
                ∙ short
                ∙ rw e refl)
        ]
      ]

  find_positive :
      (b : M) (c s : ℕ) (ms : List M)
      → 0 < s
      → s < 2 ^ 32
      → length ms < 2 ^ 32
      → find s (sent_all b c ms) ≡ recent (at_least_one c) s ms
  unfolding sent_all ring_of
  find_positive b c s [] pos wide few =
      let blank : Slot M = record { seq = 0; message = b } in
      let n = at_least_one c in
      let size = length-replicate n blank in
      let some_slot = at_least_one_pos c in
      find_lem s (replicate n blank) pos wide (omega arith) ∙ sent_as-replicate s n _ b pos
  find_positive b c s (m ∷ ms) pos wide few =
      let w = at_least_one c - 1 in
      let n = at_least_one-suc c in
      let size = length-sent_all b c ms ∙ n in
      let before = find_positive b c s ms pos wide (omega arith) ∙ ap (λ k. recent k s ms) n in
      step_recent w s m ms (sent_all b c ms) pos wide few size before
      ∙ sym (ap (λ k. recent k s (m ∷ ms)) n)

  find_zero : (slots : List (Slot M)) → find 0 slots ≡ none
  unfolding find find_seq
  find_zero slots = refl

  -- After a session sent fewer than 2^32 messages, numbered from 1, into a ring of any capacity, a message
  -- of a 32-bit number is found exactly when it is among the last `capacity` ones (one for a capacity of
  -- 0), and it is found unchanged; no message has the number 0.
  pub find-sent_all :
      (blank : M) (capacity s : ℕ) (ms : List M)
      → length ms < 2 ^ 32
      → s < 2 ^ 32
      → find s (sent_all blank capacity ms) ≡ recent (at_least_one capacity) s ms
  find-sent_all blank capacity zero ms few wide =
      find_zero (sent_all blank capacity ms) ∙ sym (recent_zero (at_least_one capacity) ms)
  find-sent_all blank capacity (suc s) ms few wide =
      find_positive blank capacity (suc s) ms (omega arith) wide few
