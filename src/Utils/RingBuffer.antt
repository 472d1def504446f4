-- ===== src/Utils/RingBuffer.antt =====
-- utils/ring_buffer.hpp. The capacity is a power of two, so `& mask_` is the remainder by it. `head`
-- and `tail` count pushes and pops and do not reach the width of size_t.
pub mod Pushes
use slick_sim.Prelude.{
  ℕ, ◌+◌, ◌-◌, ◌%◌, Bool, true, false, List, Option, none, some, eqb, leb, if◌then◌else◌, get_elem?,
  set, length, replicate,
}

pub record RingBuffer (A : Type 0) : Type 0 where
  pub buffer : List A
  pub head : ℕ
  pub tail : ℕ

module _ {A : Type 0} where
  unfoldable pub ring_buffer : (blank : A) (capacity : ℕ) → RingBuffer A
  ring_buffer blank capacity = record { buffer = replicate capacity blank; head = 0; tail = 0 }

  unfoldable pub capacity : RingBuffer A → ℕ
  capacity r = length r.buffer

  unfoldable pub put : A → RingBuffer A → RingBuffer A
  put item r = record r { buffer = set r.buffer (r.head % capacity r) item; head = r.head + 1 }

  -- Overwrites the oldest item.
  unfoldable pub push : A → RingBuffer A → RingBuffer A
  push item r =
      let written = put item r in
      if eqb (written.head % capacity written) (written.tail % capacity written)
      then record written { tail = written.tail + 1 }
      else written

  unfoldable pub size : RingBuffer A → ℕ
  size r = r.head - r.tail

  unfoldable pub is_full : RingBuffer A → Bool
  is_full r = eqb (size r) (capacity r)

  unfoldable pub try_push : A → RingBuffer A → RingBuffer A × Bool
  try_push item r = if eqb (size r) (capacity r) then (r, false) else (put item r, true)

  unfoldable pub is_empty : RingBuffer A → Bool
  is_empty r = eqb r.head r.tail

  unfoldable pub pop_front : RingBuffer A → RingBuffer A × Option A
  pop_front r =
      if is_empty r
      then (r, none)
      else (record r { tail = r.tail + 1 }, get_elem? r.buffer (r.tail % capacity r))

  unfoldable pub pop_back : RingBuffer A → RingBuffer A × Option A
  pop_back r =
      if is_empty r
      then (r, none)
      else (record r { head = r.head - 1 }, get_elem? r.buffer ((r.head - 1) % capacity r))

  -- operator[]
  unfoldable pub at_index : ℕ → RingBuffer A → Option A
  at_index index r =
      if leb (size r) index then none else get_elem? r.buffer ((r.tail + index) % capacity r)
