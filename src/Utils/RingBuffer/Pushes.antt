-- ===== src/Utils/RingBuffer/Pushes.antt =====
-- RingBuffer under `push`: what it keeps, and what `push` does to a full one.
use native.Mathlib.Nat.{mod-lt, mod-eq_of_lt, add-mod_right, zero-mod}
use slick_sim.Prelude.{
  ℕ, suc, ◌+◌, ◌-◌, ◌%◌, ◌≤◌, ◌<◌, ◌≡◌, refl, sym, ap, ◌∙◌, true, false, List, [], ◌∷◌, arith, eqb,
  leb, if◌then◌else◌, get_elem?, set, length, length-replicate, length-set, get_elem?-set_self,
  get_elem?-set_other, Bool-cases, inl, inr, min, some,
}
use slick_sim.Prelude.Remainders.{mod_apart}
use slick_sim.Utils.RingBuffer.{
  RingBuffer, ring_buffer, capacity, put, push, size, is_full, at_index,
}

module _ {A : Type 0} where
  -- The ring after pushes of `xs`, which lists the newest item first.
  unfoldable pub pushed : (blank : A) (n : ℕ) → List A → RingBuffer A
  pushed blank n [] = ring_buffer blank n
  pushed blank n (x ∷ xs) = push x (pushed blank n xs)

  push-parts :
      (x : A) (r : RingBuffer A)
      → ((push x r).head ≡ r.head + 1)
        × ((push x r).buffer ≡ set r.buffer (r.head % length r.buffer) x)
        × ((push x r).tail ≡ (
            if eqb ((r.head + 1) % length r.buffer) (r.tail % length r.buffer)
            then r.tail + 1
            else r.tail))
  unfolding push put capacity
  push-parts x r =
      rw (length-set r.buffer (r.head % length r.buffer) x)
        (elim (Bool-cases (eqb ((r.head + 1) % length r.buffer) (r.tail % length r.buffer))) [
          | inl e ↦ rw e (refl, refl, refl)
          | inr e ↦ rw e (refl, refl, refl)
        ])

-- The next head meets the tail exactly when it is a whole turn ahead.
tail_moves :
    (n h : ℕ)
    → 1 < n
    → (if eqb ((h + 1) % n) ((h - (n - 1)) % n) then h - (n - 1) + 1 else h - (n - 1))
      ≡ h + 1 - (n - 1)
tail_moves n h two = elim (Bool-cases (leb n (h + 1))) [
  | inl far ↦
      (let whole : h + 1 ≡ h - (n - 1) + n = ground arith in
        let meets = ap (λ k. k % n) whole ∙ add-mod_right (h - (n - 1)) n in
        let on : eqb ((h + 1) % n) ((h - (n - 1)) % n) ≡ true = ground (arith, meets) in
        rw on (ground arith))
  | inr near ↦
      (let start : h - (n - 1) ≡ 0 = ground arith in
        let here = mod-eq_of_lt {n = h + 1} {m = n} (ground arith) in
        let there = ap (λ k. k % n) start ∙ zero-mod n in
        let off : eqb ((h + 1) % n) ((h - (n - 1)) % n) ≡ false = ground (arith, here, there) in
        rw off (ground arith))
]

module _ {A : Type 0} where
  pushed-shape :
      (blank : A) (n : ℕ) (xs : List A)
      → 1 < n
      → let r = pushed blank n xs in
        (length r.buffer ≡ n) × (r.head ≡ length xs) × (r.tail ≡ length xs - (n - 1))
  unfolding pushed ring_buffer
  pushed-shape blank n [] two = (length-replicate n blank, refl, omega arith)
  pushed-shape blank n (x ∷ xs) two =
      let r = pushed blank n xs in
      let (size, head, tail) = pushed-shape blank n xs two in
      let (head', buffer', tail') = push-parts x r in
      (
        ap length buffer' ∙ length-set r.buffer (r.head % length r.buffer) x ∙ size,
        head' ∙ omega arith,
        tail' ∙ rw (size, head, tail) (tail_moves n (length xs) two ∙ omega arith),
      )

  -- The item that the push number `s`, from 0, wrote is in its slot for a whole turn.
  pushed-slot :
      (blank : A) (n s : ℕ) (xs : List A)
      → 1 < n
      → s < length xs
      → length xs ≤ s + n
      → get_elem? (pushed blank n xs).buffer (s % n) ≡ get_elem? xs (length xs - 1 - s)
  unfolding pushed
  pushed-slot blank n s [] two h k = absurd (omega arith)
  pushed-slot blank n s (x ∷ xs) two h k =
      let r = pushed blank n xs in
      let (size, head, tail) = pushed-shape blank n xs two in
      let (head', buffer', tail') = push-parts x r in
      let at : r.head % length r.buffer ≡ length xs % n = rw (size, head) refl in
      let written = buffer' ∙ ap (λ i. set r.buffer i x) at in
      ap (λ b. get_elem? b (s % n)) written ∙ (elim (Bool-cases (eqb s (length xs))) [
        | inl e ↦
            (let is : s ≡ length xs = ground arith in
              let room = mod-lt (length xs) {m = n} (omega arith) in
              let newest : length (x ∷ xs) - 1 - s ≡ 0 = omega arith in
              rw (newest, is) (get_elem?-set_self r.buffer (length xs % n) x (omega arith)))
        | inr e ↦
            (let less : s < length xs = ground arith in
              let older : length (x ∷ xs) - 1 - s ≡ suc (length xs - 1 - s) = omega arith in
              rw older (
                get_elem?-set_other r.buffer (length xs % n) (s % n) x
                  (λ same. (let apart = mod_apart s (length xs) n less (sym same) in omega arith))
                ∙ pushed-slot blank n s xs two less (omega arith)))
      ])

  -- After pushes into an empty ring whose capacity is a power of two above 1, the ring holds the newest
  -- items, one fewer than its capacity, and its index counts them from the oldest that it holds.
  pub at_index-pushed :
      (blank : A) (n i : ℕ) (xs : List A)
      → 1 < n
      → let r = pushed blank n xs in
        (size r ≡ min (length xs) (n - 1))
        × (i < size r → at_index i r ≡ get_elem? xs (size r - 1 - i))
  unfolding size at_index capacity
  at_index-pushed blank n i xs two =
      let r = pushed blank n xs in
      let (size_is, head, tail) = pushed-shape blank n xs two in
      (
        omega arith,
        λ h.
            (let off : leb (r.head - r.tail) i ≡ false = ground arith in
              let slot = pushed-slot blank n (r.tail + i) xs two (omega arith) (omega arith) in
              rw off (
                ap (λ k. get_elem? r.buffer ((r.tail + i) % k)) size_is
                ∙ slot
                ∙ ap (get_elem? xs) (omega arith))),
      )

  -- A `push` into a full ring of capacity above 1 writes over the oldest item and yet counts it: the size
  -- exceeds the capacity, and both the first and the last index give the new item.
  pub size-push_full :
      (x : A) (r : RingBuffer A)
      → 1 < capacity r
      → is_full r ≡ true
      → (size (push x r) ≡ capacity r + 1)
        × (at_index 0 (push x r) ≡ some x)
        × (at_index (capacity r) (push x r) ≡ some x)
  unfolding is_full size capacity at_index
  size-push_full x r two full =
      let (head', buffer', tail') = push-parts x r in
      let n = length r.buffer in
      let whole : r.head + 1 ≡ r.tail + 1 + n = ground arith in
      let turn = ap (λ k. k % n) whole ∙ add-mod_right (r.tail + 1) n in
      let off : eqb ((r.head + 1) % n) (r.tail % n) ≡ false =
        elim (Bool-cases (eqb ((r.head + 1) % n) (r.tail % n))) [
          | inl meets ↦
              (let far = mod_apart r.tail (r.tail + 1) n (omega arith) (ground (arith, turn)) in
                absurd (omega arith))
          | inr e ↦ e
        ] in
      let stays : (push x r).tail ≡ r.tail = tail' ∙ rw off refl in
      let room = mod-lt r.head {m = n} (omega arith) in
      let size_is : length (push x r).buffer ≡ n =
        ap length buffer' ∙ length-set r.buffer (r.head % n) x in
      let newest : get_elem? (push x r).buffer (r.head % n) ≡ some x =
        ap (λ b. get_elem? b (r.head % n)) buffer'
        ∙ get_elem?-set_self r.buffer (r.head % n) x room in
      let turned : r.head % n ≡ r.tail % n =
        (let far : r.head ≡ r.tail + n = ground arith in
          ap (λ h. h % n) far ∙ add-mod_right r.tail n) in
      let first : leb ((push x r).head - (push x r).tail) 0 ≡ false = ground arith in
      let last : leb ((push x r).head - (push x r).tail) n ≡ false = ground arith in
      let front : ((push x r).tail + 0) % length (push x r).buffer ≡ r.head % n =
        ap (λ k. ((push x r).tail + 0) % k) size_is
        ∙ (let starts : (push x r).tail + 0 ≡ r.tail = ground arith in
            ap (λ h. h % n) starts ∙ sym turned) in
      let back : ((push x r).tail + n) % length (push x r).buffer ≡ r.head % n =
        ap (λ k. ((push x r).tail + n) % k) size_is
        ∙ (let ends : (push x r).tail + n ≡ r.head = ground arith in ap (λ h. h % n) ends) in
      (
        omega arith,
        rw first (ap (get_elem? (push x r).buffer) front ∙ newest),
        rw last (ap (get_elem? (push x r).buffer) back ∙ newest),
      )
