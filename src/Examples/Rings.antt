-- ===== src/Examples/Rings.antt =====
-- A ring buffer of four slots.
use slick_sim.Prelude.{
  ℕ, ◌≡◌, ◌<◌, ◌+◌, ◌-◌, refl, arith, List, [], ◌∷◌, get_elem?, min, length, some,
}
use slick_sim.Utils.RingBuffer.{RingBuffer, push, size, capacity, at_index, is_full}
use slick_sim.Utils.RingBuffer.Pushes.{pushed, at_index-pushed, size-push_full}

abbrev items : List ℕ
items = 6 ∷ 5 ∷ 4 ∷ 3 ∷ 2 ∷ 1 ∷ []

at_index-pushed_example :
    let r = pushed 0 4 items in
    (size r ≡ min (length items) 3) × (1 < size r → at_index 1 r ≡ get_elem? items (size r - 1 - 1))
at_index-pushed_example = at_index-pushed 0 4 1 items (omega arith)

abbrev full : RingBuffer ℕ
full = record { buffer = 1 ∷ 2 ∷ 3 ∷ 4 ∷ []; head = 4; tail = 0 }

size-push_full_example :
    (size (push 5 full) ≡ capacity full + 1)
    × (at_index 0 (push 5 full) ≡ some 5)
    × (at_index (capacity full) (push 5 full) ≡ some 5)
unfolding capacity is_full size
size-push_full_example = size-push_full 5 full (omega arith) refl
